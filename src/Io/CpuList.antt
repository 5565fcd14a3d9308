-- ===== src/Io/CpuList.antt =====
-- `list_cpu_cores` of include/shclog/io/cpu.hpp. What `open` and `pread` give for a path is a
-- parameter; a pointer into the buffer is the bytes that were read from there to `content_end`.
mod Examples
pub mod Listing
pub mod Fields
pub mod RoundTrip
pub mod Truncated
use shclog.Prelude.{
  ℕ, zero, suc, ◌+◌, ◌-◌, ◌%◌, ◌^◌, Bool, true, false, ltb, ◌==◌, if◌then◌else◌, Option, none, some,
  List, [], ◌∷◌, ◌++◌, length, take,
}
use shclog.Decimal.{to_chars, from_chars}

pub record CpuCore : Type 0 where
  pub core_idx : ℕ
  pub siblings : List ℕ

-- How the function or a part of it ends: `malformed_file` and `could_not_read` are its errors,
-- `aborts` is `std::abort()`, `undefined` is undefined behaviour, and `unfinished` stands for rounds
-- left when the fuel is gone.
pub data Outcome (A : Type 0) : Type 0 where
  ok : A → Outcome A
  malformed_file could_not_read aborts undefined unfinished : Outcome A

infixl 5 ◌>>=◌
abbrev pub ◌>>=◌ : {A B : Type 0} → Outcome A → (A → Outcome B) → Outcome B
ok a >>= f = f a
malformed_file >>= f = malformed_file
could_not_read >>= f = could_not_read
aborts >>= f = aborts
undefined >>= f = undefined
unfinished >>= f = unfinished

-- `memchr` of a comma: the bytes before it, and those from it on.
unfoldable pub split_comma : List ℕ → List ℕ × List ℕ
split_comma [] = ([], [])
split_comma (c ∷ cs) =
    let (field, after) = split_comma cs in if c == b',' then ([], c ∷ cs) else (c ∷ field, after)

abbrev pub count_from : ℕ → ℕ → List ℕ
count_from zero n = []
count_from (suc m) n = n ∷ count_from m (suc n)

-- `for (++cpu_idx; cpu_idx <= cpu_idx_end; ++cpu_idx)`. Up to the largest `usize` it never ends, and
-- the `push_back` that fails at last terminates the program.
unfoldable pub range_after : ℕ → ℕ → Outcome (List ℕ)
range_after lo hi =
    let from = (lo + 1) % 2 ^ 64 in
    if hi == 2 ^ 64 - 1 then aborts else ok (count_from (hi + 1 - from) from)

-- One field: its indexes, and where the pointer stands behind it.
unfoldable pub parse_field : List ℕ → List ℕ → Outcome (List ℕ × List ℕ)
unfolding range_after
parse_field field after = elim (from_chars field) [
  | none ↦ malformed_file
  | some (lo, []) ↦ ok (lo ∷ [], after)
  | some (lo, c ∷ left) ↦
      if c == b'-'
      then elim (from_chars left) [
        | none ↦ malformed_file
        | some (hi, behind) ↦ range_after lo hi >>= λ more. ok (lo ∷ more, behind ++ after)
      ]
      else ok (lo ∷ [], (c ∷ left) ++ after)
]

-- `*(content_end - 1) != '\n'`, which of an empty file reads before the buffer
unfoldable pub ends_line : List ℕ → Outcome (Unit {0})
ends_line [] = undefined
ends_line (c ∷ []) = if c == b'\n' then ok tt else malformed_file
ends_line (c ∷ d ∷ cs) = ends_line (d ∷ cs)

module _ (debug : Bool) where
  -- `++content_it` beyond `content_end`: the next round's `memchr` has a negative length, at which
  -- the assertion of `int_cast` fails.
  abbrev pub overrun : {A : Type 0} → Outcome A
  overrun = if debug then aborts else undefined

  -- `while (content_it != content_end)`
  unfoldable pub parse_siblings : ℕ → List ℕ → List ℕ → Outcome (List ℕ)
  unfolding parse_field split_comma
  parse_siblings fuel siblings [] = ok siblings
  parse_siblings zero siblings (c ∷ cs) = unfinished
  parse_siblings (suc fuel) siblings (c ∷ cs) =
      parse_field ((split_comma (c ∷ cs)).0) ((split_comma (c ∷ cs)).1) >>= λ r. elim (r.1) [
        | [] ↦ overrun
        | d ∷ rest ↦ parse_siblings fuel (siblings ++ r.0) rest
      ]

  unfoldable pub read_core : ℕ → List ℕ → Outcome CpuCore
  unfolding parse_siblings ends_line
  read_core i content = parse_siblings (length content) [] content >>= λ siblings.
      ends_line content >>= λ _. ok (record { core_idx = i; siblings = siblings })

-- The bytes of "/topology/thread_siblings_list".
abbrev pub path_stub_end : List ℕ
path_stub_end =
    b'/' ∷ b't' ∷ b'o' ∷ b'p' ∷ b'o' ∷ b'l' ∷ b'o' ∷ b'g' ∷ b'y' ∷ b'/' ∷ b't' ∷ b'h' ∷ b'r' ∷ b'e'
    ∷ b'a' ∷ b'd' ∷ b'_' ∷ b's' ∷ b'i' ∷ b'b' ∷ b'l' ∷ b'i' ∷ b'n' ∷ b'g' ∷ b's' ∷ b'_' ∷ b'l'
    ∷ b'i' ∷ b's' ∷ b't' ∷ []

-- What `open` and `pread` find at a path: `content` is the file's bytes.
pub data CpuFile : Type 0 where
  missing unreadable : CpuFile
  content : List ℕ → CpuFile

-- `std::array<u8, 64> buf{}`; `pread` gives no more of a file than its buffer holds.
abbrev pub buf_size : ℕ
buf_size = 64

-- `PATH_STUB` is the template's parameter. The bytes after the first zero byte are not in a path.
module _ (debug : Bool) (path_stub : List ℕ) where
  -- The path of processor `i`: `cpu_idx_buf` has room for 4 digits, and `std::to_chars` fails without.
  unfoldable pub path_of : ℕ → Outcome (List ℕ)
  unfolding to_chars
  path_of i =
      let cpu_idx = to_chars i in
      if ltb 4 (length cpu_idx)
      then if debug then aborts else undefined
      else ok (path_stub ++ (cpu_idx ++ path_stub_end))

  module _ (files : List ℕ → CpuFile) where
    unfoldable pub list_from : ℕ → ℕ → Outcome (List CpuCore)
    unfolding read_core path_of
    list_from zero i = ok []
    list_from (suc rounds) i =
        let rest = list_from rounds (suc i) in
        path_of i >>= λ path. elim (files path) [
          | missing ↦ ok []
          | unreadable ↦ could_not_read
          | content bytes ↦ read_core debug i (take buf_size bytes) >>= λ core.
              rest >>= λ cores. ok (core ∷ cores)
        ]

    unfoldable pub list_cpu_cores : Outcome (List CpuCore)
    unfolding list_from
    list_cpu_cores = list_from 10000 0

-- ===== src/Io/CpuList/Examples.antt =====
-- Runs of the CPU list parser, and its theorems at concrete inputs.
use shclog.Prelude.{
  ℕ, true, false, zero, suc, ◌<◌, ◌≤◌, ◌≢◌, length, replicate, ◌==◌, if◌then◌else◌, ◌≡◌, List, [],
  ◌∷◌, ◌++◌, refl, arith,
}
use shclog.Decimal.{to_chars, from_chars}
use shclog.Io.CpuList.{
  ok, path_stub_end, malformed_file, aborts, undefined, read_core, CpuFile, content, missing,
  list_cpu_cores, buf_size,
}
use shclog.Io.CpuList.Truncated.{list_cpu_cores-cut}
use shclog.Io.CpuList.Listing.{list_cpu_cores-printed}
use shclog.Io.CpuList.Fields.{Range, single, span, printed}

-- "0,2-3" and the end of the line.
abbrev line : List ℕ
line = b'0' ∷ b',' ∷ b'2' ∷ b'-' ∷ b'3' ∷ b'\n' ∷ []

read_back : printed (single 0) (span 2 3 ∷ []) (b'\n' ∷ []) ≡ line
unfolding printed to_chars
read_back = refl

reads_ranges : read_core true 7 line ≡ ok (record { core_idx = 7; siblings = 0 ∷ 2 ∷ 3 ∷ [] })
unfolding read_core from_chars
reads_ranges = refl

-- No number at all.
reads_letter : read_core true 0 (b'x' ∷ b'\n' ∷ []) ≡ malformed_file
unfolding read_core from_chars
reads_letter = refl

-- A byte behind a number is skipped whatever it is.
skips_byte :
    read_core true 0 (b'1' ∷ b'x' ∷ b'2' ∷ b'\n' ∷ [])
    ≡ ok (record { core_idx = 0; siblings = 1 ∷ 2 ∷ [] })
unfolding read_core from_chars
skips_byte = refl

-- An empty file.
reads_empty : read_core true 0 [] ≡ undefined
unfolding read_core
reads_empty = refl

reads_cut : read_core true 0 (b'1' ∷ []) ≡ aborts
unfolding read_core from_chars
reads_cut = refl

-- One processor, under a path that begins with its number.
abbrev one_file : List ℕ → CpuFile
one_file [] = missing
one_file (c ∷ cs) = if c == b'0' then content line else missing

abbrev one_range : ℕ → Range × List Range
one_range i = (single 0, span 2 3 ∷ [])

one_file_held :
    (i : ℕ)
    → i < 1
    → one_file (to_chars i ++ path_stub_end)
      ≡ content (printed (single 0) (span 2 3 ∷ []) (b'\n' ∷ []))
unfolding printed to_chars
one_file_held zero l = refl
one_file_held (suc i) l = absurd (omega arith)

one_file_short :
    (i : ℕ) → i < 1 → length (printed (single 0) (span 2 3 ∷ []) (b'\n' ∷ [])) ≤ buf_size
unfolding printed to_chars
one_file_short i l = omega arith

one_file_gone : one_file (to_chars 1 ++ path_stub_end) ≡ missing
unfolding to_chars
one_file_gone = refl

list_cpu_cores-printed_example :
    list_cpu_cores true [] one_file ≡ ok (record { core_idx = 0; siblings = 0 ∷ 2 ∷ 3 ∷ [] } ∷ [])
list_cpu_cores-printed_example =
    list_cpu_cores-printed one_range true [] one_file
      (λ i. (omega arith, ((omega arith, omega arith), tt))) 1 one_file_held one_file_short
      one_file_gone (omega arith)

-- 33 processors of one digit: 66 bytes.
abbrev many : List Range
many = replicate 32 (single 1)

many_files : List ℕ → CpuFile
many_files path = content (printed (single 1) many (b'\n' ∷ []))

length-many : length (printed (single 1) many (b'\n' ∷ [])) ≡ 66
unfolding printed to_chars
length-many = refl

list_cpu_cores-cut_example : list_cpu_cores false [] many_files ≢ ok []
unfolding many_files
list_cpu_cores-cut_example =
    list_cpu_cores-cut (λ i. (single 1, many)) false [] many_files 1 (λ i l. refl) 0 []
      (omega arith) (omega arith) (omega (arith, length-many))

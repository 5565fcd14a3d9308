-- ===== src/Collections/Slice/Room.antt =====
-- An allocated slice has room for its elements and the sentinel, unless the length wraps around.
use shclog.Prelude.{
  ℕ, zero, suc, ◌+◌, ◌-◌, ◌*◌, ◌/◌, ◌%◌, ◌^◌, ◌≤◌, ◌<◌, ◌≡◌, Bool, true, false, leb, ltb, Option,
  none, some, List, [], ◌∷◌, length, set, get_elem?, refl, ap, ◌∙◌, arith, length-set, dec_lt,
}
use native.Mathlib.Nat.{mod-eq_of_lt, mul-div_left, le-mul_of_pos_right, zero-div}
use shclog.Math.{mul_with_overflow, add_with_overflow}
use shclog.Io.Exec.{returns, aborts, undefined, ◌>>=◌}
use shclog.Collections.Slice.{Slice, extra, requested, terminate, make}

-- The memory holds the elements and, behind them, the sentinel.
abbrev pub IsRoomy : Option ℕ → ℕ → Slice → Type 0
IsRoomy sentinel len s =
    (s.len ≡ len)
    × (length s.elements ≡ len + extra sentinel)
    × ((c : ℕ) → sentinel ≡ some c → get_elem? s.elements len ≡ some c)

requested_fits :
    (debug : Bool) (header payload size_of : ℕ)
    → header + payload * size_of < 2 ^ 64
    → requested debug header payload size_of ≡ returns (header + payload * size_of)
unfolding requested mul_with_overflow add_with_overflow
requested_fits true header payload size_of fits =
    let product : payload * size_of % 2 ^ 64 ≡ payload * size_of =
      mod-eq_of_lt (omega (arith, fits)) in
    let sum : payload * size_of + header < 2 ^ 64 = omega (arith, fits) in
    let low : leb (2 ^ 64) (payload * size_of) ≡ false = ground arith in
    let low_sum : leb (2 ^ 64) (payload * size_of + header) ≡ false = ground arith in
    rw (product, low, low_sum) (ap returns (mod-eq_of_lt sum ∙ omega arith))
requested_fits false header payload size_of fits =
    let product : payload * size_of % 2 ^ 64 ≡ payload * size_of =
      mod-eq_of_lt (omega (arith, fits)) in
    rw product (ap returns (mod-eq_of_lt fits))

requested_overflows :
    (header payload size_of : ℕ)
    → 2 ^ 64 ≤ header + payload * size_of
    → requested true header payload size_of ≡ aborts
unfolding requested mul_with_overflow add_with_overflow
requested_overflows header payload size_of over = elim (dec_lt (payload * size_of) (2 ^ 64)) [
  | yes l ↦
      let product : payload * size_of % 2 ^ 64 ≡ payload * size_of = mod-eq_of_lt l in
      let low : leb (2 ^ 64) (payload * size_of) ≡ false = ground arith in
      let high : leb (2 ^ 64) (payload * size_of + header) ≡ true = ground (arith, over) in
      rw (product, low, high) refl
  | no g ↦ let high : leb (2 ^ 64) (payload * size_of) ≡ true = ground arith in rw high refl
]

get_elem?-set : (xs : List ℕ) (i v : ℕ) → i < length xs → get_elem? (set xs i v) i ≡ some v
get_elem?-set [] i v h = absurd (omega (arith, h))
get_elem?-set (x ∷ xs) zero v h = refl
get_elem?-set (x ∷ xs) (suc i) v h = get_elem?-set xs i v (omega (arith, h))

module _ (debug : Bool) (has_memory : ℕ → Bool) (storage : ℕ → List ℕ) (header size_of : ℕ) where
  terminate-IsRoomy :
      (sentinel : Option ℕ) (len : ℕ) (elements : List ℕ)
      → length elements ≡ len + extra sentinel
      → (s : Slice) × ((terminate debug has_memory storage header size_of sentinel len elements
            >>= λ e. returns (some (record { elements = e; len = len })))
          ≡ returns (some s))
        × IsRoomy sentinel len s
  terminate-IsRoomy none len elements size = (
    record { elements = elements; len = len },
    refl,
    (refl, size, λ c e. absurd (let d : ◌≡◌ {A = Option ℕ} none (some c) = e in cc)),
  )
  terminate-IsRoomy (some c) len elements size =
      let inside : ltb len (length elements) ≡ true = ground (arith, size) in
      (
        record { elements = set elements len c; len = len },
        rw inside refl,
        (
          refl,
          length-set elements len c ∙ size,
          λ d e. get_elem?-set elements len c (omega (arith, size)) ∙ e,
        ),
      )

  -- When the bytes of the header, the elements and the sentinel are a `usize` and there is memory, `make`
  -- gives a slice of the length asked for, with room for exactly the elements and the sentinel, which
  -- stands behind them. Elements have a size, and fresh storage the number of elements asked for.
  pub make-IsRoomy :
      (sentinel : Option ℕ) (len : ℕ)
      → 0 < size_of
      → ((n : ℕ) → length (storage n) ≡ n)
      → header + (len + extra sentinel) * size_of < 2 ^ 64
      → has_memory (header + (len + extra sentinel) * size_of) ≡ true
      → (s : Slice) × (make debug has_memory storage header size_of sentinel len ≡ returns (some s))
        × IsRoomy sentinel len s
  unfolding make
  make-IsRoomy sentinel len positive exact fits memory =
      let payload = len + extra sentinel in
      let small : payload < 2 ^ 64 =
        omega (arith, fits, le-mul_of_pos_right {m = size_of} payload positive) in
      let count : (header + payload * size_of - header) / size_of ≡ payload =
        ap (λ (n : ℕ). n / size_of) {y = payload * size_of} (omega arith)
        ∙ mul-div_left payload positive in
      rw
        (
          mod-eq_of_lt {n = payload} {m = 2 ^ 64} small,
          requested_fits debug header payload size_of fits,
          ◌>>=◌,
          memory,
        )
        (terminate-IsRoomy sentinel len _ (exact _ ∙ count))

  -- The length that wraps around when the sentinel is added asks for the header alone, and the sentinel
  -- is written far behind it, in a debug build too.
  pub make_wraps :
      (c : ℕ)
      → 0 < size_of
      → ((n : ℕ) → length (storage n) ≡ n)
      → header < 2 ^ 64
      → has_memory header ≡ true
      → make debug has_memory storage header size_of (some c) (2 ^ 64 - 1) ≡ undefined
  unfolding make
  make_wraps c positive exact small memory =
      let alone : requested debug header 0 size_of ≡ returns header =
        requested_fits debug header 0 size_of (omega (arith, small)) ∙ ap returns (omega arith) in
      let none_fit : length (storage ((header - header) / size_of)) ≡ 0 =
        exact _ ∙ ap (λ (n : ℕ). n / size_of) {y = 0} (omega arith) ∙ zero-div size_of in
      let outside : ltb (2 ^ 64 - 1) (length (storage ((header - header) / size_of))) ≡ false =
        ground (arith, none_fit) in
      rw (alone, ◌>>=◌, memory, outside) refl

-- A debug build aborts when the bytes are more than a `usize` holds.
make_overflows :
    (has_memory : ℕ → Bool) (storage : ℕ → List ℕ) (header size_of : ℕ) (sentinel : Option ℕ)
    (len : ℕ)
    → len + extra sentinel < 2 ^ 64
    → 2 ^ 64 ≤ header + (len + extra sentinel) * size_of
    → make true has_memory storage header size_of sentinel len ≡ aborts
unfolding make
make_overflows has_memory storage header size_of sentinel len small over =
    rw
      (
        mod-eq_of_lt {n = len + extra sentinel} {m = 2 ^ 64} small,
        requested_overflows header (len + extra sentinel) size_of over,
      )
      refl

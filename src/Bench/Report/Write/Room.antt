-- ===== src/Bench/Report/Write/Room.antt =====
-- `REPR_MAX_LEN` is room enough for what `write` prints of any value.
use shclog.Prelude.{
  ℕ, zero, suc, ◌+◌, ◌^◌, ◌≤◌, ◌<◌, ◌≡◌, Bool, ◌==◌, some, List, ◌∷◌, ◌++◌, length, drop,
  length-append, refl, ap, subst, ◌∙◌, arith, dec_lt, le→leb, Bool-cases, ◌⊎◌, inl, inr,
}
use shclog.Decimal.{to_chars}
use shclog.Decimal.Places.{length-to_chars}
use shclog.Io.Exec.{returns}
use shclog.Bench.Report.{UnitScale, ValueInUnit, IsLawful, fit, last_unit, ratio, biggest_unit_fit}
use native.Mathlib.Nat.{le-mul_of_pos_right}
use shclog.Bench.Report.Fit.{IsShown, fit-IsShown}
use shclog.Bench.Report.Write.{write_value, longest_symbol, symbol_max_len, repr_max_len}
use shclog.Bench.Report.Write.Exact.{text, fraction, write-text}

longest_symbol-bounds :
    (S : UnitScale) (n i : ℕ) → i ≤ n → length (S.symbol (S.from i)) ≤ longest_symbol S n
unfolding longest_symbol
longest_symbol-bounds S zero i h =
    subst (λ (j : ℕ). length (S.symbol (S.from j)) ≤ length (S.symbol (S.from 0)))
      (let z : 0 ≡ i = omega (arith, h) in z) (omega arith)
longest_symbol-bounds S (suc n) i h = elim (dec_lt n i) [
  | yes l ↦
      let same : i ≡ suc n = omega (arith, h, l) in
      let equal = ap (λ (j : ℕ). length (S.symbol (S.from j))) same in omega (arith, equal)
  | no g ↦ omega (arith, longest_symbol-bounds S n i (omega (arith, g)))
]

symbol-fits :
    (S : UnitScale) → IsLawful S → (u : S.Measure) → length (S.symbol u) ≤ symbol_max_len S
unfolding symbol_max_len
symbol-fits S lawful u =
    subst (λ w. length (S.symbol w) ≤ longest_symbol S (last_unit S)) (lawful.from-to_underlying u)
      (longest_symbol-bounds S (last_unit S) (S.to_underlying u) (lawful.bounded u))

-- The whole number is at most the value, and a tenth stands behind a single digit only.
pub IsShown-whole :
    {M : Type 0} (value r : ℕ) (x : ValueInUnit M)
    → IsShown value r x
    → ((x.whole ≤ value) × (x.tenth ≡ 0)) ⊎ ((x.whole < 10) × (x.tenth < 10))
IsShown-whole value r x (inl (one, same, none_left)) = inl (omega arith, none_left)
IsShown-whole value r x (inr (inl (more, small, digit, cut))) = inr (small, digit)
IsShown-whole value r x (inr (inr (more, large, none_left, low, high))) =
    inl (omega (arith, low, le-mul_of_pos_right {m = r} x.whole (omega arith)), none_left)

length-text :
    (S : UnitScale) (x : ValueInUnit S.Measure)
    → length (text S x)
      ≡ length (to_chars x.whole) + (length (fraction x.tenth) + suc (length (S.symbol x.measure)))
unfolding text
length-text S x =
    length-append (to_chars x.whole) (fraction x.tenth ++ (b' ' ∷ S.symbol x.measure))
    ∙ ap (λ (n : ℕ). length (to_chars x.whole) + n)
        (length-append (fraction x.tenth) (b' ' ∷ S.symbol x.measure))

fraction_none : (tenth : ℕ) → tenth ≡ 0 → length (fraction tenth) ≡ 0
fraction_none tenth e = ap (λ (t : ℕ). length (fraction t)) e

fraction_short : (tenth : ℕ) → length (fraction tenth) ≤ 2
fraction_short tenth = elim (Bool-cases (tenth == 0)) [
  | inl e ↦ rw e (omega arith)
  | inr e ↦ rw e (omega arith)
]

-- A sign has room as well when the type has two digits.
pub text-fits :
    (S : UnitScale) (sign digits10 value : ℕ) (x : ValueInUnit S.Measure)
    → IsLawful S
    → sign ≤ 1
    → sign < digits10
    → value < 10 ^ suc digits10
    → ((x.whole ≤ value) × (x.tenth ≡ 0)) ⊎ ((x.whole < 10) × (x.tenth < 10))
    → sign + length (text S x) ≤ repr_max_len S digits10
unfolding repr_max_len
text-fits S sign digits10 value x lawful unit_sign some_digits range (inl (le, e)) = omega (
  arith,
  length-text S x,
  fraction_none x.tenth e,
  symbol-fits S lawful x.measure,
  length-to_chars digits10 x.whole (omega (arith, range, le)),
  unit_sign,
  some_digits,
)
text-fits S sign digits10 value x lawful unit_sign some_digits range (inr (l, d)) = omega (
  arith,
  length-text S x,
  fraction_short x.tenth,
  symbol-fits S lawful x.measure,
  length-to_chars 0 x.whole l,
  unit_sign,
  some_digits,
)

pub tenth_digit :
    {M : Type 0} (value : ℕ) (x : ValueInUnit M)
    → ((x.whole ≤ value) × (x.tenth ≡ 0)) ⊎ ((x.whole < 10) × (x.tenth < 10))
    → x.tenth < 10
tenth_digit value x (inl (le, e)) = omega (arith, e)
tenth_digit value x (inr (l, d)) = d

-- A value that its type holds is written into a buffer of REPR_MAX_LEN bytes or more without an
-- error: the answer is the text of what `fit` shows of it, with the text's length. `digits10` is
-- positive, and the type's values have one digit more at most.
pub write_value-text :
    (debug : Bool) (S : UnitScale) (limit digits10 value : ℕ) (u : S.Measure) (buffer : List ℕ)
    → IsLawful S
    → 0 < digits10
    → 1 < limit
    → limit ≤ 10 ^ suc digits10
    → value < limit
    → repr_max_len S digits10 ≤ length buffer
    → (x : ValueInUnit S.Measure) × (fit S limit value u ≡ some x)
      × (write_value debug S limit value u buffer
          ≡ returns (some (text S x ++ drop (length (text S x)) buffer, length (text S x))))
unfolding write_value
write_value-text debug S limit digits10 value u buffer lawful some_digits one top held room =
    let (x, fits, measured, shown) = fit-IsShown S lawful limit value u held one in
    let form = IsShown-whole value (ratio S u (biggest_unit_fit S value u)) x shown in
    let enough : length (text S x) ≤ length buffer = omega (
      arith,
      room,
      text-fits S 0 digits10 value x lawful (omega arith) some_digits (omega (arith, top, held))
          form,
    ) in
    (
      x,
      fits,
      rw (fits, write_value)
          (write-text debug S x buffer (tenth_digit {M = S.Measure} value x form)
            ∙ rw (le→leb (length (text S x)) (length buffer) enough) refl),
    )

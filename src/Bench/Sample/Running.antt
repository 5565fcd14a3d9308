-- ===== src/Bench/Sample/Running.antt =====
-- What a sample holds after its pushes, and how the running total saturates.
use shclog.Prelude.{
  ℕ, zero, suc, ◌+◌, ◌-◌, ◌≤◌, ◌<◌, ◌≡◌, min, max, false, true, leb, List, [], ◌∷◌, ◌++◌, length,
  set, take, arith, refl, ap, sym, ◌∙◌, subst, dec_lt, le→leb, lt→leb_false,
}
use native.Mathlib.Nat.{mod-eq_of_lt}
use shclog.Math.{Checked, add_with_overflow}
use shclog.Bench.Sample.{Sample, add_total}

abbrev pub smallest : ℕ → List ℕ → ℕ
smallest top [] = top
smallest top (x ∷ xs) = min x (smallest top xs)

abbrev pub largest : List ℕ → ℕ
largest [] = 0
largest (x ∷ xs) = max x (largest xs)

abbrev pub sum_of : List ℕ → ℕ
sum_of [] = 0
sum_of (x ∷ xs) = x + sum_of xs

pub smallest-append_one :
    (top : ℕ) (xs : List ℕ) (v : ℕ) → smallest top (xs ++ (v ∷ [])) ≡ min (smallest top xs) v
smallest-append_one top [] v = omega arith
smallest-append_one top (x ∷ xs) v = omega (arith, smallest-append_one top xs v)

pub largest-append_one : (xs : List ℕ) (v : ℕ) → largest (xs ++ (v ∷ [])) ≡ max (largest xs) v
largest-append_one [] v = omega arith
largest-append_one (x ∷ xs) v = omega (arith, largest-append_one xs v)

sum_of-append_one : (xs : List ℕ) (v : ℕ) → sum_of (xs ++ (v ∷ [])) ≡ sum_of xs + v
sum_of-append_one [] v = omega arith
sum_of-append_one (x ∷ xs) v = omega (arith, sum_of-append_one xs v)

pub take-set_end :
    (xs : List ℕ) (n v : ℕ) → n < length xs → take (suc n) (set xs n v) ≡ take n xs ++ (v ∷ [])
take-set_end [] n v h = absurd (omega arith)
take-set_end (x ∷ xs) zero v h = refl
take-set_end (x ∷ xs) (suc n) v h = ap (λ r. x ∷ r) (take-set_end xs n v (omega arith))

pub append_one_append :
    (xs : List ℕ) (v : ℕ) (ys : List ℕ) → (xs ++ (v ∷ [])) ++ ys ≡ xs ++ (v ∷ ys)
append_one_append [] v ys = refl
append_one_append (x ∷ xs) v ys = ap (λ r. x ∷ r) (append_one_append xs v ys)

pub take_nil : (n : ℕ) → take {A = ℕ} n [] ≡ []
take_nil zero = refl
take_nil (suc n) = refl

-- The total is the sum, held at the largest value once it does not fit.
abbrev pub IsTotal : (limit : ℕ) → List ℕ → Checked → Type 0
IsTotal limit xs t = (t.overflow ≡ leb limit (sum_of xs)) × (t.value ≡ min (sum_of xs) (limit - 1))

-- The sample holds exactly `xs` in a buffer of `room` slots.
abbrev pub Holds : (limit room : ℕ) → List ℕ → Sample → Type 0
Holds limit room xs s =
    (length s.samples ≡ room)
    × (s.count ≡ length xs)
    × (take s.count s.samples ≡ xs)
    × (s.least ≡ smallest (limit - 1) xs)
    × (s.greatest ≡ largest xs)
    × IsTotal limit xs s.sum

-- Each branch of the addition to the total.
add_total_stuck : (limit : ℕ) (t : Checked) (v : ℕ) → t.overflow ≡ true → add_total limit t v ≡ t
unfolding add_total
add_total_stuck limit t v o = rw o refl

add_total_fits :
    (limit : ℕ) (t : Checked) (v : ℕ)
    → t.overflow ≡ false
    → t.value + v < limit
    → add_total limit t v ≡ record { value = t.value + v; overflow = false }
unfolding add_total add_with_overflow
add_total_fits limit t v o h =
    let low : leb limit (t.value + v) ≡ false = lt→leb_false limit (t.value + v) h in
    let same = mod-eq_of_lt {n = t.value + v} {m = limit} h in rw (o, low, same) refl

add_total_over :
    (limit : ℕ) (t : Checked) (v : ℕ)
    → t.overflow ≡ false
    → limit ≤ t.value + v
    → add_total limit t v ≡ record { value = limit - 1; overflow = true }
unfolding add_total add_with_overflow
add_total_over limit t v o h =
    let high : leb limit (t.value + v) ≡ true = le→leb limit (t.value + v) h in rw (o, high) refl

pub add_total-IsTotal :
    (limit : ℕ) (xs : List ℕ) (t : Checked) (v : ℕ)
    → 0 < limit
    → IsTotal limit xs t
    → IsTotal limit (xs ++ (v ∷ [])) (add_total limit t v)
add_total-IsTotal limit xs t v p (o, e) = elim (dec_lt (sum_of xs) limit) [
  | no high ↦
      subst (IsTotal limit (xs ++ (v ∷ [])))
        (sym (add_total_stuck limit t v (o ∙ le→leb limit (sum_of xs) (omega arith))))
        (
          o
              ∙ le→leb limit (sum_of xs) (omega arith)
              ∙ sym
                  (le→leb limit (sum_of (xs ++ (v ∷ []))) (omega (arith, sum_of-append_one xs v))),
          omega (arith, sum_of-append_one xs v),
        )
  | yes low ↦ elim (dec_lt (t.value + v) limit) [
    | yes fits ↦
        subst (IsTotal limit (xs ++ (v ∷ [])))
          (sym (add_total_fits limit t v (o ∙ lt→leb_false limit (sum_of xs) low) fits))
          (
            sym (
                lt→leb_false limit (sum_of (xs ++ (v ∷ [])))
                  (omega (arith, sum_of-append_one xs v))),
            omega (arith, sum_of-append_one xs v),
          )
    | no over ↦
        subst (IsTotal limit (xs ++ (v ∷ [])))
          (sym (add_total_over limit t v (o ∙ lt→leb_false limit (sum_of xs) low) (omega arith)))
          (
            sym (le→leb limit (sum_of (xs ++ (v ∷ []))) (omega (arith, sum_of-append_one xs v))),
            omega (arith, sum_of-append_one xs v),
          )
  ]
]

-- ===== src/Bench/Sample/Percentile/Examples.antt =====
-- Runs of `percentile`, and its theorem at concrete inputs. Percents stand in for the doubles from 0 to
-- 1, which scale an index and cut it down.
use shclog.Prelude.{
  ℕ, ◌+◌, ◌*◌, ◌/◌, ◌≤◌, ◌≡◌, Bool, true, leb, ltb, if◌then◌else◌, List, [], ◌∷◌, refl, arith,
  Bool-cases, inl, inr, ap, ◌∙◌,
}
use native.Mathlib.Nat.{div-le_of_le-mul, mul-le-mul_right}
use shclog.Io.Exec.{returns, value, unexpected, ◌>>=◌}
use shclog.Bench.Sample.{Sample, empty_sample}
use shclog.Bench.Sample.Percentile.{Floats, percentile, empty_samples}
use shclog.Bench.Sample.Percentile.Ranks.{Sorts, IsFloor, IsAscending, how_many, HasRank}
use shclog.Bench.Sample.Percentile.History.{Use, pushes, asks, StaysBelow, use_all, use_all-HasRank}

abbrev percents : Floats
percents = record { F64 = ℕ; is_invalid = λ p. ltb 100 p; scaled = λ p n. p * n / 100 }

-- A sort.
abbrev insert : ℕ → List ℕ → List ℕ
insert x [] = x ∷ []
insert x (y ∷ ys) = let rest = insert x ys in if leb x y then x ∷ y ∷ ys else y ∷ rest

abbrev sort : List ℕ → List ℕ
sort [] = []
sort (x ∷ xs) = insert x (sort xs)

IsFloor-weaken : (a b : ℕ) (xs : List ℕ) → a ≤ b → IsFloor b xs → IsFloor a xs
IsFloor-weaken a b [] l h = tt
IsFloor-weaken a b (x ∷ xs) l (k, h) = (omega (arith, l, k), IsFloor-weaken a b xs l h)

insert-IsFloor : (a x : ℕ) (xs : List ℕ) → a ≤ x → IsFloor a xs → IsFloor a (insert x xs)
insert-IsFloor a x [] l h = (l, tt)
insert-IsFloor a x (y ∷ ys) l (k, h) = elim (Bool-cases (leb x y)) [
  | inl e ↦ rw e (l, (k, h))
  | inr e ↦ rw e (k, insert-IsFloor a x ys l h)
]

insert-IsAscending : (x : ℕ) (xs : List ℕ) → IsAscending xs → IsAscending (insert x xs)
insert-IsAscending x [] h = (tt, tt)
insert-IsAscending x (y ∷ ys) (f, h) = elim (Bool-cases (leb x y)) [
  | inl e ↦ let le : x ≤ y = ground arith in rw e ((le, IsFloor-weaken x y ys le f), (f, h))
  | inr e ↦
      let le : y ≤ x = ground arith in rw e (insert-IsFloor y x ys le f, insert-IsAscending x ys h)
]

how_many-insert :
    (p : ℕ → Bool) (x : ℕ) (xs : List ℕ) → how_many p (insert x xs) ≡ how_many p (x ∷ xs)
how_many-insert p x [] = refl
how_many-insert p x (y ∷ ys) = elim (Bool-cases (leb x y)) [
  | inl e ↦ rw e refl
  | inr e ↦ rw e (omega (arith, how_many-insert p x ys))
]

sort-Sorts : Sorts sort
sort-Sorts [] = (tt, λ p. refl)
sort-Sorts (x ∷ xs) =
    let (order, same) = sort-Sorts xs in
    (
      insert-IsAscending x (sort xs) order,
      λ p. how_many-insert p x (sort xs) ∙ ap (λ (n : ℕ). (if p x then 1 else 0) + n) (same p),
    )

percents-StaysBelow : StaysBelow percents
percents-StaysBelow p n valid small =
    let le : p ≤ 100 = ground arith in
    div-le_of_le-mul 100 {m = p * n} {n = n} (mul-le-mul_right n le)

-- The median of 7, 3 and 5, asked twice.
abbrev history : List (Use ℕ)
history = pushes 7 ∷ pushes 3 ∷ asks 50 ∷ pushes 5 ∷ []

median_runs :
    (s : Sample) × ((use_all true sort percents 256 (empty_sample 256 (0 ∷ 0 ∷ 0 ∷ [])) history
        >>= percentile true sort percents 50)
      ≡ returns (s, value 5))
unfolding use_all percentile
median_runs = (_, refl)

empty_runs :
    percentile true sort percents 50 (empty_sample 256 (0 ∷ []))
    ≡ returns (empty_sample 256 (0 ∷ []), unexpected empty_samples)
unfolding percentile
empty_runs = refl

use_all-HasRank_example :
    (s : Sample) × (v : ℕ) × ((use_all true sort percents 256
          (empty_sample 256 (0 ∷ 0 ∷ 0 ∷ []))
          history
        >>= percentile true sort percents 50)
      ≡ returns (s, value v))
    × HasRank (7 ∷ 3 ∷ 5 ∷ []) 1 v
use_all-HasRank_example =
    use_all-HasRank true sort percents 256 sort-Sorts percents-StaysBelow 3 (omega arith)
      (0 ∷ 0 ∷ 0 ∷ []) history 50 refl refl (omega arith)

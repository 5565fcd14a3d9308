-- ===== src/Bench/Report/Monotone.antt =====
-- What the compile-time check of a scale gives: a larger unit has a larger scale, and ten times the
-- largest scale fits 64 bits.
use shclog.Prelude.{
  ℕ, zero, suc, ◌*◌, ◌%◌, ◌^◌, ◌≤◌, ◌<◌, ◌≡◌, subst, true, ◌&&◌, arith, Bool, false, refl, dec_lt,
  ℕ_discrete, ==_iff, leb→le,
}
use native.Mathlib.Nat.{mod-eq_of_lt}
use shclog.Bench.Report.{UnitScale, IsLawful, each_divides, unit_scales_fit, last_unit, scale_at}

&&-left : (a b : Bool) → (a && b) ≡ true → a ≡ true
&&-left true b h = refl
&&-left false b h = h

pub &&-right : (a b : Bool) → (a && b) ≡ true → b ≡ true
&&-right true b h = h
&&-right false b h = ground arith

pub &&-false : (a b : Bool) → a ≡ true → (a && b) ≡ false → b ≡ false
&&-false true b t h = h
&&-false false b t h = ground arith

divisor_le : (a b : ℕ) → 0 < a → a % b ≡ 0 → b ≤ a
divisor_le a b p h = elim (dec_lt a b) [
  | yes l ↦ omega (arith, mod-eq_of_lt l)
  | no g ↦ omega arith
]

module _ (S : UnitScale) (laws : IsLawful S) where
  step_le : (i : ℕ) → each_divides S (suc i) ≡ true → scale_at S i ≤ scale_at S (suc i)
  unfolding each_divides
  step_le i h =
      divisor_le (scale_at S (suc i)) (scale_at S i) (laws.positive (S.from (suc i)))
        ((==_iff (scale_at S (suc i) % scale_at S i) 0).0 (&&-right (each_divides S i) _ h))

  divides-le : (n i : ℕ) → each_divides S n ≡ true → i ≤ n → scale_at S i ≤ scale_at S n
  unfolding each_divides
  divides-le zero i h le =
      let same : i ≡ 0 = omega arith in
      subst (λ (t : ℕ). scale_at S i ≤ scale_at S t) same (omega arith)
  divides-le (suc n) i h le = elim (ℕ_discrete i (suc n)) [
    | yes same ↦ subst (λ (t : ℕ). scale_at S i ≤ scale_at S t) same (omega arith)
    | no less ↦
        omega (arith, divides-le n i (&&-left (each_divides S n) _ h) (omega arith), step_le n h)
  ]

  divides-fewer : (n k : ℕ) → each_divides S n ≡ true → k ≤ n → each_divides S k ≡ true
  unfolding each_divides
  divides-fewer zero k h le =
      let same : 0 ≡ k = omega arith in subst (λ (t : ℕ). each_divides S t ≡ true) same h
  divides-fewer (suc n) k h le = elim (ℕ_discrete (suc n) k) [
    | yes same ↦ subst (λ (t : ℕ). each_divides S t ≡ true) same h
    | no less ↦ divides-fewer n k (&&-left (each_divides S n) _ h) (omega arith)
  ]

  all_divide : each_divides S (last_unit S) ≡ true
  unfolding unit_scales_fit
  all_divide = &&-left (each_divides S (last_unit S)) _ laws.fits

  -- A larger unit has a larger scale.
  pub scale_mono : (u b : S.Measure) → S.to_underlying u ≤ S.to_underlying b → S.scale u ≤ S.scale b
  scale_mono u b le =
      let n : ℕ = S.to_underlying b in
      let small = divides-fewer (last_unit S) n all_divide (laws.bounded b) in
      subst (λ (t : S.Measure). S.scale t ≤ S.scale b) (laws.from-to_underlying u)
        (subst (λ (t : S.Measure). scale_at S (S.to_underlying u) ≤ S.scale t)
          (laws.from-to_underlying b) (divides-le n (S.to_underlying u) small le))

  -- Ten times a scale fits 64 bits.
  pub scale_room : (u : S.Measure) → S.scale u * 10 < 2 ^ 64
  unfolding unit_scales_fit
  scale_room u = omega (
    arith,
    scale_mono u S.last (laws.bounded u),
    leb→le _ _ (&&-right (each_divides S (last_unit S)) _ laws.fits),
  )

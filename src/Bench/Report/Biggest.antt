-- ===== src/Bench/Report/Biggest.antt =====
-- `biggest_unit_fit`: where its loop stops.
use shclog.Prelude.{
  ℕ, zero, suc, ◌+◌, ◌-◌, ◌/◌, ◌≤◌, ◌<◌, ◌≡◌, inl, inr, true, false, ◌&&◌, ltb, ◌↔◌, arith, refl,
  Bool-cases, subst, sym, dec_lt, ℕ_discrete, lt→ltb,
}
use native.Mathlib.Nat.{le-div_iff_mul-le, div-mul-le_self}
use shclog.Bench.Report.{UnitScale, IsLawful, last_unit, ratio, fills_unit, climb, biggest_unit_fit}
use shclog.Bench.Report.Monotone.{scale_mono, &&-right, &&-false}

div_mono : (a b c : ℕ) → 0 < c → a ≤ b → a / c ≤ b / c
div_mono a b c p h =
    (le-div_iff_mul-le {k = c} {x = a / c} {y = b} p).1 (omega (arith, div-mul-le_self a c))

module _ (S : UnitScale) (laws : IsLawful S) where
  fills_true : (v : ℕ) (u to : S.Measure) → fills_unit S v u to ≡ true → ratio S u to ≤ v
  unfolding fills_unit
  fills_true v u to h = ground arith

  fills_false : (v : ℕ) (u to : S.Measure) → fills_unit S v u to ≡ false → v < ratio S u to
  unfolding fills_unit
  fills_false v u to h = ground arith

  -- where the loop stops
  climb_between :
      (fuel value : ℕ) (u : S.Measure) (idx : ℕ)
      → fuel + idx ≡ last_unit S
      → (idx ≤ climb S fuel value u idx) × (climb S fuel value u idx ≤ last_unit S)
  unfolding climb
  climb_between zero value u idx e = omega arith
  climb_between (suc fuel) value u idx e =
      ground (arith, climb_between fuel value u (suc idx) (omega arith))

  climb_on :
      (fuel value : ℕ) (u : S.Measure) (idx : ℕ)
      → (ltb idx (last_unit S) && fills_unit S value u (S.from (suc idx))) ≡ true
      → climb S (suc fuel) value u idx ≡ climb S fuel value u (suc idx)
  unfolding climb
  climb_on fuel value u idx g = rw g refl

  climb_off :
      (fuel value : ℕ) (u : S.Measure) (idx : ℕ)
      → (ltb idx (last_unit S) && fills_unit S value u (S.from (suc idx))) ≡ false
      → climb S (suc fuel) value u idx ≡ idx
  unfolding climb
  climb_off fuel value u idx g = rw g refl

  climb_fills :
      (fuel value : ℕ) (u : S.Measure) (idx i : ℕ)
      → idx < i
      → i ≤ climb S fuel value u idx
      → ratio S u (S.from i) ≤ value
  unfolding climb
  climb_fills zero value u idx i l h = absurd (omega arith)
  climb_fills (suc fuel) value u idx i l h =
      elim (Bool-cases (ltb idx (last_unit S) && fills_unit S value u (S.from (suc idx)))) [
        | inl on ↦ elim (ℕ_discrete (suc idx) i) [
          | yes same ↦
              subst (λ (t : ℕ). ratio S u (S.from t) ≤ value) same
                (fills_true value u (S.from (suc idx)) (&&-right (ltb idx (last_unit S)) _ on))
          | no later ↦
              climb_fills fuel value u (suc idx) i (omega arith)
                (omega (arith, climb_on fuel value u idx on))
        ]
        | inr off ↦ absurd (omega (arith, climb_off fuel value u idx off))
      ]

  climb_stops :
      (fuel value : ℕ) (u : S.Measure) (idx : ℕ)
      → fuel + idx ≡ last_unit S
      → climb S fuel value u idx < last_unit S
      → value < ratio S u (S.from (suc (climb S fuel value u idx)))
  unfolding climb
  climb_stops zero value u idx e l = absurd (omega arith)
  climb_stops (suc fuel) value u idx e l =
      elim (Bool-cases (ltb idx (last_unit S) && fills_unit S value u (S.from (suc idx)))) [
        | inl on ↦
            subst (λ (c : ℕ). value < ratio S u (S.from (suc c)))
              (sym (climb_on fuel value u idx on))
              (climb_stops fuel value u (suc idx) (omega arith)
                (omega (arith, climb_on fuel value u idx on)))
        | inr off ↦
            subst (λ (c : ℕ). value < ratio S u (S.from (suc c)))
              (sym (climb_off fuel value u idx off))
              (fills_false value u (S.from (suc idx)) (
                &&-false (ltb idx (last_unit S)) _
                  (lt→ltb idx (last_unit S) (omega (arith, climb_off fuel value u idx off))) off))
      ]

  -- the index at which the loop of `biggest_unit_fit` stops
  abbrev stop : ℕ → S.Measure → ℕ
  stop value u = climb S (last_unit S - S.to_underlying u) value u (S.to_underlying u)

  index-biggest :
      (value : ℕ) (u : S.Measure) → S.to_underlying (biggest_unit_fit S value u) ≡ stop value u
  unfolding biggest_unit_fit
  index-biggest value u = laws.to_underlying-from (stop value u) (
      (climb_between (last_unit S - S.to_underlying u) value u (S.to_underlying u)
        (omega (arith, laws.bounded u))).1)

  ratio_mono :
      (u : S.Measure) (i j : ℕ)
      → i ≤ j
      → j ≤ last_unit S
      → ratio S u (S.from i) ≤ ratio S u (S.from j)
  unfolding ratio
  ratio_mono u i j l le =
      div_mono (S.scale (S.from i)) (S.scale (S.from j)) (S.scale u) (laws.positive u) (
        scale_mono S laws (S.from i) (S.from j)
          (omega (arith, laws.to_underlying-from i (omega arith), laws.to_underlying-from j le)))

  -- Of the units larger than the value's, those up to the chosen one are the ones that the value
  -- fills.
  pub biggest_unit_fit_lem :
      (value : ℕ) (u : S.Measure) (i : ℕ)
      → S.to_underlying u < i
      → i ≤ last_unit S
      → (i ≤ S.to_underlying (biggest_unit_fit S value u)) ↔ (ratio S u (S.from i) ≤ value)
  biggest_unit_fit_lem value u i above le = (below, filled)
    where
      start : (last_unit S - S.to_underlying u) + S.to_underlying u ≡ last_unit S
      start = omega (arith, laws.bounded u)

      below : i ≤ S.to_underlying (biggest_unit_fit S value u) → ratio S u (S.from i) ≤ value
      below h =
          climb_fills (last_unit S - S.to_underlying u) value u (S.to_underlying u) i above
            (omega (arith, index-biggest value u))

      filled : ratio S u (S.from i) ≤ value → i ≤ S.to_underlying (biggest_unit_fit S value u)
      filled h = elim (dec_lt (stop value u) i) [
        | no g ↦ omega (arith, index-biggest value u)
        | yes l ↦ absurd (
            omega (
              arith,
              climb_stops (last_unit S - S.to_underlying u) value u (S.to_underlying u) start
                  (omega arith),
              ratio_mono u (suc (stop value u)) i l le,
            ))
      ]

  -- The chosen unit is not below the value's.
  pub biggest_ge :
      (value : ℕ) (u : S.Measure) → S.to_underlying u ≤ S.to_underlying (biggest_unit_fit S value u)
  biggest_ge value u = omega (
    arith,
    index-biggest value u,
    climb_between (last_unit S - S.to_underlying u) value u (S.to_underlying u)
        (omega (arith, laws.bounded u)),
  )

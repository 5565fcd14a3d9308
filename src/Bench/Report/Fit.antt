-- ===== src/Bench/Report/Fit.antt =====
-- `fit` shows the value cut to a tenth of the chosen unit, and none of its casts fails.
use shclog.Prelude.{
  ℕ, suc, ◌+◌, ◌*◌, ◌/◌, ◌%◌, ◌^◌, ◌≤◌, ◌<◌, ◌≡◌, ◌⊎◌, inl, inr, true, false, not, ◌&&◌, leb, ltb,
  ◌==◌, some, arith, refl, subst, sym, ap, ◌∙◌, dec_lt, ℕ_discrete, lt→leb_false,
}
use native.Mathlib.Nat.{
  mod-eq_of_lt, mod-lt, mod-add-div, div-lt_iff_lt-mul, lt-div-mul-add, div-mul-le_self, div_self,
  div-one, div-le_self, le-div_iff_mul-le,
}
use shclog.Bench.Report.{UnitScale, IsLawful, ValueInUnit, ratio, biggest_unit_fit, with_tenth, fit}
use shclog.Bench.Report.Monotone.{scale_mono, scale_room}
use shclog.Bench.Report.Biggest.{biggest_ge, biggest_unit_fit_lem}

-- The shown number of tenths of a unit of `r`, cut down from the value.
abbrev pub IsCut : (value r tenths : ℕ) → Type 0
IsCut value r tenths = (tenths * r ≤ 10 * value) × (10 * value < suc tenths * r)

tenth_lt : (v r : ℕ) → 0 < r → v % r * 10 / r < 10
tenth_lt v r p =
    (div-lt_iff_lt-mul {k = r} {x = v % r * 10} {y = 10} p).1 (omega (arith, mod-lt v p))

tenths-IsCut : (v r : ℕ) → 0 < r → IsCut v r (10 * (v / r) + v % r * 10 / r)
tenths-IsCut v r p = omega (
  arith,
  mod-add-div v r,
  div-mul-le_self (v % r * 10) r,
  lt-div-mul-add {a = v % r * 10} {b = r} p,
)

-- How a value stands in a unit of ratio `r`: as it is, as a number of tenths, or as a whole number
-- from 10 on.
abbrev pub IsShown : {M : Type 0} → (value r : ℕ) → ValueInUnit M → Type 0
IsShown value r x =
    ((r ≡ 1) × (x.whole ≡ value) × (x.tenth ≡ 0))
    ⊎ (((1 < r) × (x.whole < 10) × (x.tenth < 10) × IsCut value r (10 * x.whole + x.tenth))
        ⊎ ((1 < r)
            × (10 ≤ x.whole)
            × (x.tenth ≡ 0)
            × (x.whole * r ≤ value)
            × (value < suc x.whole * r)))

-- Each branch of the last step.
whole_only :
    (S : UnitScale) (v r : ℕ) (b : S.Measure)
    → (not (r == 1) && ltb (v / r) 10) ≡ false
    → with_tenth S v r b ≡ some (record { whole = v / r; tenth = 0; measure = b })
unfolding with_tenth
whole_only S v r b g = rw g refl

whole_and_tenth :
    (S : UnitScale) (v r t : ℕ) (b : S.Measure)
    → (not (r == 1) && ltb (v / r) 10) ≡ true
    → v % r * 10 % 2 ^ 64 / r ≡ t
    → t < 10
    → with_tenth S v r b ≡ some (record { whole = v / r; tenth = t; measure = b })
unfolding with_tenth
whole_and_tenth S v r t b g e l = let low : leb 256 t ≡ false = ground arith in rw (g, e, low) refl

unwrapped : (v r : ℕ) → 0 < r → r * 10 < 2 ^ 64 → v % r * 10 % 2 ^ 64 / r ≡ v % r * 10 / r
unwrapped v r p room =
    ap (λ (t : ℕ). t / r) (mod-eq_of_lt {n = v % r * 10} {m = 2 ^ 64} (omega (arith, mod-lt v p)))

with_tenth-IsShown :
    (S : UnitScale) (v r : ℕ) (b : S.Measure)
    → 0 < r
    → r * 10 < 2 ^ 64
    → (x : ValueInUnit S.Measure) × (with_tenth S v r b ≡ some x) × (x.measure ≡ b) × IsShown v r x
with_tenth-IsShown S v r b p room = elim (ℕ_discrete r 1) [
  | yes one ↦ (
    _,
    whole_only S v r b (ground arith),
    refl,
    inl (one, ap (λ (t : ℕ). v / t) one ∙ div-one v, refl),
  )
  | no other ↦ elim (dec_lt (v / r) 10) [
    | yes small ↦ (
      _,
      whole_and_tenth S v r (v % r * 10 / r) b (ground arith) (unwrapped v r p room)
          (tenth_lt v r p),
      refl,
      inr (inl (omega arith, small, tenth_lt v r p, tenths-IsCut v r p)),
    )
    | no large ↦ (
      _,
      whole_only S v r b (ground arith),
      refl,
      inr (
          inr (
            omega arith,
            omega arith,
            refl,
            div-mul-le_self v r,
            omega (arith, lt-div-mul-add {a = v} {b = r} p),
          )),
    )
  ]
]

module _ (S : UnitScale) (laws : IsLawful S) where
  pub ratio_pos : (v : ℕ) (u : S.Measure) → 0 < ratio S u (biggest_unit_fit S v u)
  unfolding ratio
  ratio_pos v u =
      (le-div_iff_mul-le {k = S.scale u} {x = 1} {y = S.scale (biggest_unit_fit S v u)}
          (laws.positive u)).1
        (omega (arith, scale_mono S laws u (biggest_unit_fit S v u) (biggest_ge S laws v u)))

  pub ratio_room : (u b : S.Measure) → ratio S u b * 10 < 2 ^ 64
  unfolding ratio
  ratio_room u b = omega (arith, div-le_self (S.scale b) (S.scale u), scale_room S laws b)

  same_index : (u b : S.Measure) → S.to_underlying u ≡ S.to_underlying b → u ≡ b
  same_index u b e = sym (laws.from-to_underlying u) ∙ ap S.from e ∙ laws.from-to_underlying b

  pub ratio_fits :
      (limit v : ℕ) (u : S.Measure)
      → v < limit
      → 1 < limit
      → ratio S u (biggest_unit_fit S v u) < limit
  unfolding ratio
  ratio_fits limit v u l one =
      elim (dec_lt (S.to_underlying u) (S.to_underlying (biggest_unit_fit S v u))) [
        | yes above ↦ omega (arith, filled above)
        | no same ↦ omega (arith, unit_ratio (omega (arith, biggest_ge S laws v u)))
      ]
    where
      filled :
          S.to_underlying u < S.to_underlying (biggest_unit_fit S v u)
          → S.scale (biggest_unit_fit S v u) / S.scale u ≤ v
      filled above =
          subst (λ (b : S.Measure). S.scale b / S.scale u ≤ v)
            (laws.from-to_underlying (biggest_unit_fit S v u))
            ((biggest_unit_fit_lem S laws v u (S.to_underlying (biggest_unit_fit S v u)) above
                (laws.bounded (biggest_unit_fit S v u))).0
              (omega arith))

      unit_ratio :
          S.to_underlying u ≡ S.to_underlying (biggest_unit_fit S v u)
          → S.scale (biggest_unit_fit S v u) / S.scale u ≡ 1
      unit_ratio e =
          ap (λ (b : S.Measure). S.scale b / S.scale u)
            (sym (same_index u (biggest_unit_fit S v u) e))
          ∙ div_self (laws.positive u)

  -- `fit` of a value that the type holds always gives a result, in the unit that
  -- `biggest_unit_fit` chooses: the value itself where that is as large as the unit it came in, else
  -- below 10 units the number of tenths cut down, and from 10 units on the number of units cut down.
  pub fit-IsShown :
      (limit v : ℕ) (u : S.Measure)
      → v < limit
      → 1 < limit
      → (x : ValueInUnit S.Measure) × (fit S limit v u ≡ some x)
        × (x.measure ≡ biggest_unit_fit S v u)
        × IsShown v (ratio S u (biggest_unit_fit S v u)) x
  unfolding fit
  fit-IsShown limit v u l one =
      let low : leb limit (ratio S u (biggest_unit_fit S v u)) ≡ false =
        lt→leb_false limit (ratio S u (biggest_unit_fit S v u)) (ratio_fits limit v u l one) in
      rw low (
        with_tenth-IsShown S v (ratio S u (biggest_unit_fit S v u)) (biggest_unit_fit S v u)
          (ratio_pos v u) (ratio_room u (biggest_unit_fit S v u)))

-- ===== src/Bench/Report.antt =====
-- `UnitRepr` of include/shclog/bench/report.hpp at an unsigned integer type of `limit` values, over
-- any scale of units. A cast that its assertion stops is `none`.
pub mod Monotone
pub mod Biggest
pub mod Fit
pub mod Write
pub mod Signed
use shclog.Prelude.{
  ℕ, zero, suc, ◌+◌, ◌*◌, ◌-◌, ◌/◌, ◌%◌, ◌^◌, ◌≤◌, ◌<◌, ◌≡◌, Bool, true, false, not, ◌&&◌, ◌||◌,
  leb, ltb, ◌==◌, if◌then◌else◌, Option, none, some, List,
}

-- The parameter `S` of `UnitRepr`: `Measure` is its enum, `from` the `static_cast` of an index.
pub record UnitScale : Type 1 where
  pub Measure : Type 0
  pub to_underlying : Measure → ℕ
  pub from : ℕ → Measure
  pub last : Measure
  pub scale : Measure → ℕ
  pub symbol : Measure → List ℕ

-- `ValueInUnit<T>`
pub record ValueInUnit (M : Type 0) : Type 0 where
  pub whole : ℕ
  pub tenth : ℕ
  pub measure : M

module _ (S : UnitScale) where
  abbrev pub last_unit : ℕ
  last_unit = S.to_underlying S.last

  abbrev pub scale_at : ℕ → ℕ
  scale_at i = S.scale (S.from i)

  -- the loop of `unit_scales_fit` over the indexes 1 to `n`
  unfoldable pub each_divides : ℕ → Bool
  each_divides zero = true
  each_divides (suc i) = each_divides i && scale_at (suc i) % scale_at i == 0

  unfoldable pub unit_scales_fit : Bool
  unfolding each_divides
  unit_scales_fit = each_divides last_unit && leb (S.scale S.last) ((2 ^ 64 - 1) / 10)

  -- Its assertion is `from <= to`.
  unfoldable pub ratio : S.Measure → S.Measure → ℕ
  ratio from to = S.scale to / S.scale from

  -- The second test compares with the negated ratio, which an unsigned value reaches only at 0.
  unfoldable pub fills_unit : ℕ → S.Measure → S.Measure → Bool
  unfolding ratio
  fills_unit v from to = let r = ratio from to in leb r v || leb (v + r) 0

  -- `while (idx < LAST_UNIT && ...) ++idx`
  unfoldable pub climb : ℕ → ℕ → S.Measure → ℕ → ℕ
  unfolding fills_unit
  climb zero value u idx = idx
  climb (suc fuel) value u idx =
      let rest = climb fuel value u (suc idx) in
      if ltb idx last_unit && fills_unit value u (S.from (suc idx)) then rest else idx

  unfoldable pub biggest_unit_fit : ℕ → S.Measure → S.Measure
  unfolding climb
  biggest_unit_fit value u =
      S.from (climb (last_unit - S.to_underlying u) value u (S.to_underlying u))

  -- the end of `fit`, from the test on the ratio on
  unfoldable pub with_tenth : ℕ → ℕ → S.Measure → Option (ValueInUnit S.Measure)
  with_tenth value r b =
      let whole = value / r in
      let tenth = value % r * 10 % 2 ^ 64 / r in
      if not (r == 1) && ltb whole 10
      then (if leb 256 tenth
          then none
          else some (record { whole = whole; tenth = tenth; measure = b }))
      else some (record { whole = whole; tenth = 0; measure = b })

  unfoldable pub fit : ℕ → ℕ → S.Measure → Option (ValueInUnit S.Measure)
  unfolding ratio biggest_unit_fit with_tenth
  fit limit value u =
      let b = biggest_unit_fit value u in
      let r = ratio u b in if leb limit r then none else with_tenth value r b

-- What the enum gives, what the compiler checks of a scale, and that no unit is empty.
pub record IsLawful (S : UnitScale) : Type 0 where
  pub from-to_underlying : (u : S.Measure) → S.from (S.to_underlying u) ≡ u
  pub to_underlying-from : (i : ℕ) → i ≤ last_unit S → S.to_underlying (S.from i) ≡ i
  pub bounded : (u : S.Measure) → S.to_underlying u ≤ last_unit S
  pub fits : unit_scales_fit S ≡ true
  pub positive : (u : S.Measure) → 0 < S.scale u

-- ===== src/Bench/Report/Signed/Mirror.antt =====
-- `fit` of a signed value is `fit` of its magnitude, with the sign on the whole number.
use shclog.Prelude.{
  ℕ, zero, suc, ◌+◌, ◌-◌, ◌*◌, ◌/◌, ◌%◌, ◌^◌, ◌≤◌, ◌<◌, ◌≡◌, ◌≢◌, true, not, ◌&&◌, ◌||◌, leb, ltb,
  ◌==◌, Option, none, some, refl, sym, ap, ◌∙◌, arith, Bool-cases, inl, inr, lt→ltb, lt→leb_false,
}
use shclog.Prelude.Int.{ℤ, pos, negsuc, nat_abs, neg_ℤ, with_sign, leb_ℤ, ltb_ℤ}
use native.Mathlib.Nat.{one-le-pow, div-le_self, pow-succ'}
use shclog.Cast.{signed, in_range, static_cast}
use shclog.Cast.Exact.{static_cast-kept}
use shclog.Bench.Report.{UnitScale, IsLawful, last_unit, ratio}
use shclog.Bench.Report
use shclog.Bench.Report.Fit.{ratio_room, ratio_fits}
use shclog.Bench.Report.Signed.{
  ValueInUnit, fills_unit, climb, biggest_unit_fit, magnitude, with_tenth, fit,
}

-- A result at the unsigned type, with the sign of the value.
abbrev pub mirror : {M : Type 0} → ℤ → Report.ValueInUnit M → ValueInUnit M
mirror v x = record { whole = with_sign v x.whole; tenth = x.tenth; measure = x.measure }

abbrev pub mirrored : {M : Type 0} → ℤ → Option (Report.ValueInUnit M) → Option (ValueInUnit M)
mirrored v none = none
mirrored v (some x) = some (mirror v x)

isize_kept : (r : ℕ) → r < 2 ^ 63 → static_cast (signed 63) (pos r) ≡ pos r
unfolding in_range
isize_kept r h = static_cast-kept (signed 63) (pos r) (lt→ltb r (2 ^ 63) h)

reaches_mirror :
    (v : ℤ) (r : ℕ)
    → (leb_ℤ (pos r) v || leb_ℤ v (neg_ℤ (pos r))) ≡ (leb r (nat_abs v) || leb (nat_abs v + r) 0)
reaches_mirror (pos n) zero = ground arith
reaches_mirror (pos n) (suc r) = ground arith
reaches_mirror (negsuc n) zero = ground arith
reaches_mirror (negsuc n) (suc r) = ground arith

module _ (S : UnitScale) (laws : IsLawful S) where
  fills_unit-mirror :
      (v : ℤ) (u to : S.Measure) → fills_unit S v u to ≡ Report.fills_unit S (nat_abs v) u to
  unfolding fills_unit Report.fills_unit
  fills_unit-mirror v u to =
      rw (isize_kept (ratio S u to) (omega (arith, ratio_room S laws u to)))
        (reaches_mirror v (ratio S u to))

  climb-mirror :
      (fuel : ℕ) (v : ℤ) (u : S.Measure) (idx : ℕ)
      → climb S fuel v u idx ≡ Report.climb S fuel (nat_abs v) u idx
  unfolding climb Report.climb
  climb-mirror zero v u idx = refl
  climb-mirror (suc fuel) v u idx =
      rw (fills_unit-mirror v u (S.from (suc idx)), climb-mirror fuel v u (suc idx)) refl

  biggest-mirror :
      (v : ℤ) (u : S.Measure) → biggest_unit_fit S v u ≡ Report.biggest_unit_fit S (nat_abs v) u
  unfolding biggest_unit_fit Report.biggest_unit_fit
  biggest-mirror v u =
      ap S.from (climb-mirror (last_unit S - S.to_underlying u) v u (S.to_underlying u))

-- Both tests of the whole number are one test of its magnitude.
small_mirror :
    (v : ℤ) (q : ℕ)
    → (ltb_ℤ (with_sign v q) (pos 10) && ltb_ℤ (negsuc 9) (with_sign v q)) ≡ ltb q 10
small_mirror (pos n) q = ground arith
small_mirror (negsuc n) zero = ground arith
small_mirror (negsuc n) (suc q) = ground arith

magnitude-with_sign : (S : UnitScale) (v : ℤ) (q : ℕ) → magnitude S (with_sign v q) ≡ pos q
magnitude-with_sign S (pos n) q = ground arith
magnitude-with_sign S (negsuc n) zero = refl
magnitude-with_sign S (negsuc n) (suc q) = refl

in_range-with_sign :
    (digits : ℕ) (v : ℤ) (q : ℕ)
    → in_range (signed digits) v ≡ true
    → q ≤ nat_abs v
    → in_range (signed digits) (with_sign v q) ≡ true
unfolding in_range
in_range-with_sign digits (pos n) q h le = ground arith
in_range-with_sign digits (negsuc n) zero h le = ground arith
in_range-with_sign digits (negsuc n) (suc q) h le = ground arith

with_tenth-mirror :
    (S : UnitScale) (digits : ℕ) (v : ℤ) (r : ℕ) (b : S.Measure)
    → in_range (signed digits) v ≡ true
    → with_tenth S digits v r b ≡ mirrored v (Report.with_tenth S (nat_abs v) r b)
unfolding with_tenth Report.with_tenth
with_tenth-mirror S digits v r b held =
    rw
      (
        in_range-with_sign digits v (nat_abs v / r) held (div-le_self (nat_abs v) r),
        small_mirror v (nat_abs v / r),
        magnitude-with_sign S v (nat_abs v % r),
      )
      (elim (Bool-cases (not (r == 1) && ltb (nat_abs v / r) 10)) [
        | inr whole_only ↦ rw whole_only refl
        | inl small ↦ elim (Bool-cases (leb 256 (nat_abs v % r * 10 % 2 ^ 64 / r))) [
          | inl high ↦ rw (small, high) refl
          | inr low ↦ rw (small, low) refl
        ]
      ])

pub range_bounds : (digits : ℕ) (v : ℤ) → in_range (signed digits) v ≡ true → nat_abs v ≤ 2 ^ digits
unfolding in_range
range_bounds digits (pos n) h = ground arith
range_bounds digits (negsuc n) h = ground arith

-- `fit` where the ratio to the chosen unit is one that the type holds.
fit_signed_ratio :
    (S : UnitScale) (laws : IsLawful S) (digits : ℕ) (v : ℤ) (u : S.Measure)
    → ratio S u (Report.biggest_unit_fit S (nat_abs v) u) < 2 ^ digits
    → fit S digits v u
      ≡ with_tenth S digits v
          (ratio S u (Report.biggest_unit_fit S (nat_abs v) u))
          (Report.biggest_unit_fit S (nat_abs v) u)
unfolding fit in_range
fit_signed_ratio S laws digits v u h =
    let l = lt→ltb (ratio S u (Report.biggest_unit_fit S (nat_abs v) u)) (2 ^ digits) h in
    rw (biggest-mirror S laws v u, l) refl

fit-ratio :
    (S : UnitScale) (limit v : ℕ) (u : S.Measure)
    → ratio S u (Report.biggest_unit_fit S v u) < limit
    → Report.fit S limit v u
      ≡ Report.with_tenth S v
          (ratio S u (Report.biggest_unit_fit S v u))
          (Report.biggest_unit_fit S v u)
unfolding Report.fit
fit-ratio S limit v u h =
    let l = lt→leb_false limit (ratio S u (Report.biggest_unit_fit S v u)) h in rw l refl

-- The signed `fit` from the result for the magnitude.
pub fit_of_magnitude :
    (S : UnitScale) (laws : IsLawful S) (digits : ℕ) (v : ℤ) (u : S.Measure)
    (x : Report.ValueInUnit S.Measure)
    → in_range (signed digits) v ≡ true
    → ratio S u (Report.biggest_unit_fit S (nat_abs v) u) ≢ 2 ^ digits
    → Report.fit S (2 ^ suc digits) (nat_abs v) u ≡ some x
    → fit S digits v u ≡ some (mirror v x)
fit_of_magnitude S laws digits v u x held other e =
    let b : S.Measure = Report.biggest_unit_fit S (nat_abs v) u in
    let p : 0 < 2 ^ digits = one-le-pow digits 2 (omega arith) in
    let below : ratio S u b < suc (2 ^ digits) =
      ratio_fits S laws (suc (2 ^ digits)) (nat_abs v) u (omega (arith, range_bounds digits v held))
        (omega (arith, p)) in
    let r_fits : ratio S u b < 2 ^ digits = omega (arith, below, other) in
    fit_signed_ratio S laws digits v u r_fits
    ∙ with_tenth-mirror S digits v (ratio S u b) b held
    ∙ ap (mirrored v) (
        sym (fit-ratio S (2 ^ suc digits) (nat_abs v) u (omega (arith, r_fits, pow-succ' 2 digits)))
        ∙ e)

pub magnitude_bound :
    (digits : ℕ) (v : ℤ)
    → in_range (signed digits) v ≡ true
    → (nat_abs v < 2 ^ suc digits) × (1 < 2 ^ suc digits)
magnitude_bound digits v held =
    let p : 0 < 2 ^ digits = one-le-pow digits 2 (omega arith) in
    (
      omega (arith, p, range_bounds digits v held, pow-succ' 2 digits),
      omega (arith, p, pow-succ' 2 digits),
    )

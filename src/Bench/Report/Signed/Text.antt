-- ===== src/Bench/Report/Signed/Text.antt =====
-- What the signed `write` leaves in the buffer: a minus sign before what `write` shows of the
-- magnitude.
use shclog.Prelude.{
  ℕ, zero, suc, ◌+◌, ◌*◌, ◌^◌, ◌≤◌, ◌<◌, ◌≡◌, ◌≢◌, inl, inr, Bool, true, some, List, [], ◌∷◌, ◌++◌,
  length, drop, refl, ap, ◌∙◌, arith, dec_lt, le→leb,
}
use shclog.Prelude.Int.{ℤ, pos, negsuc, nat_abs, with_sign}
use mathlib.Core.List.{append_assoc}
use native.Mathlib.Nat.{mul-le-mul_right}
use shclog.Cast.{signed, in_range}
use shclog.Decimal.{to_chars}
use shclog.Io.Exec.{returns}
use shclog.Bench.Report.{UnitScale, IsLawful, ratio}
use shclog.Bench.Report
use shclog.Bench.Report.Fit.{IsShown, fit-IsShown, ratio_fits}
use shclog.Bench.Report.Write.{repr_max_len}
use shclog.Bench.Report.Write.Exact.{text, characters, write_rest-characters}
use shclog.Bench.Report.Write.Room.{text-fits, IsShown-whole, tenth_digit}
use shclog.Bench.Report.Signed.{to_chars_signed, fit, write_number, write, write_value}
use shclog.Bench.Report.Signed.Mirror.{mirror, fit_of_magnitude, magnitude_bound, range_bounds}

abbrev pub sign : ℤ → List ℕ
sign (pos n) = []
sign (negsuc n) = b'-' ∷ []

-- A value of a unit or more is shown as a whole number of 1 or more.
whole_pos :
    {M : Type 0} (value r : ℕ) (x : Report.ValueInUnit M)
    → 0 < value
    → r ≤ value
    → IsShown value r x
    → 0 < x.whole
whole_pos value r x some_value filled (inl (one, same, none_left)) = omega arith
whole_pos value r x some_value filled (inr (inr (more, large, none_left, low, high))) = omega arith
whole_pos value r x some_value filled (inr (inl (more, small, digit, low_high))) =
    elim (dec_lt 0 x.whole) [
      | yes l ↦ l
      | no g ↦
          let le : suc (10 * x.whole + x.tenth) ≤ 10 = omega (arith, g, digit) in
          absurd (omega (arith, low_high.1, filled, mul-le-mul_right r le))
    ]

to_chars_signed-with_sign :
    (v : ℤ) (n : ℕ)
    → (0 < nat_abs v → 0 < n)
    → to_chars_signed (with_sign v n) ≡ sign v ++ to_chars n
unfolding to_chars_signed
to_chars_signed-with_sign (pos k) n p = refl
to_chars_signed-with_sign (negsuc k) zero p = absurd (omega (arith, p (omega arith)))
to_chars_signed-with_sign (negsuc k) (suc n) p = refl

-- The text of a signed value whose magnitude is shown as `x`.
abbrev pub signed_text : (S : UnitScale) → ℤ → Report.ValueInUnit S.Measure → List ℕ
signed_text S v x = sign v ++ text S x

characters-mirror :
    (S : UnitScale) (v : ℤ) (x : Report.ValueInUnit S.Measure)
    → (0 < nat_abs v → 0 < x.whole)
    → characters S (to_chars_signed (with_sign v x.whole)) x.tenth x.measure ≡ signed_text S v x
unfolding text
characters-mirror S v x p =
    ap (λ cs. characters S cs x.tenth x.measure) (to_chars_signed-with_sign v x.whole p)
    ∙ append_assoc (sign v) (to_chars x.whole) _

shown_pos :
    (S : UnitScale) (laws : IsLawful S) (v : ℕ) (u : S.Measure) (x : Report.ValueInUnit S.Measure)
    → IsShown v (ratio S u (Report.biggest_unit_fit S v u)) x
    → 0 < v
    → 0 < x.whole
shown_pos S laws v u x form p =
    let l = ratio_fits S laws (suc v) v u (omega arith) (omega (arith, p)) in
    whole_pos v (ratio S u (Report.biggest_unit_fit S v u)) x p (omega (arith, l)) form

length-signed_text :
    (S : UnitScale) (v : ℤ) (x : Report.ValueInUnit S.Measure)
    → length (signed_text S v x) ≤ 1 + length (text S x)
length-signed_text S (pos n) x = omega arith
length-signed_text S (negsuc n) x = omega arith

written :
    (debug : Bool) (S : UnitScale) (digits : ℕ) (v : ℤ) (u : S.Measure) (buffer : List ℕ)
    (x : Report.ValueInUnit S.Measure)
    → fit S digits v u ≡ some (mirror v x)
    → x.tenth < 10
    → (0 < nat_abs v → 0 < x.whole)
    → length (signed_text S v x) ≤ length buffer
    → write_value debug S digits v u buffer
      ≡ returns (
          some (
            signed_text S v x ++ drop (length (signed_text S v x)) buffer,
            length (signed_text S v x),
          ))
unfolding write_value write write_number
written debug S digits v u buffer x e digit some_whole enough =
    rw (e, write_value)
      (write_rest-characters debug S (to_chars_signed (with_sign v x.whole)) x.tenth x.measure
          buffer digit
        ∙ rw
            (
              characters-mirror S v x some_whole,
              le→leb (length (signed_text S v x)) (length buffer) enough,
            )
            refl)

-- A signed value that its type holds is written into a buffer of REPR_MAX_LEN bytes or more without
-- an error: a minus sign for a negative value, and then the text of what `fit` shows of the magnitude
-- at the unsigned type of the same width. The sign is never lost. `digits10` is 2 at least, the type's
-- values have one digit more at most, and the ratio to the chosen unit is not 2^digits.
pub write_value-signed_text :
    (debug : Bool) (S : UnitScale) (digits digits10 : ℕ) (v : ℤ) (u : S.Measure) (buffer : List ℕ)
    → IsLawful S
    → 1 < digits10
    → 2 ^ digits < 10 ^ suc digits10
    → in_range (signed digits) v ≡ true
    → ratio S u (Report.biggest_unit_fit S (nat_abs v) u) ≢ 2 ^ digits
    → repr_max_len S digits10 ≤ length buffer
    → (x : Report.ValueInUnit S.Measure) × (Report.fit S (2 ^ suc digits) (nat_abs v) u ≡ some x)
      × (write_value debug S digits v u buffer
          ≡ returns (
              some (
                signed_text S v x ++ drop (length (signed_text S v x)) buffer,
                length (signed_text S v x),
              )))
write_value-signed_text debug S digits digits10 v u buffer laws two_digits top held other room =
    let (bound, some_values) = magnitude_bound digits v held in
    let (x, e, measured, form) =
      fit-IsShown S laws (2 ^ suc digits) (nat_abs v) u bound some_values in
    let parts =
      IsShown-whole (nat_abs v) (ratio S u (Report.biggest_unit_fit S (nat_abs v) u)) x form in
    let enough : length (signed_text S v x) ≤ length buffer = omega (
      arith,
      room,
      length-signed_text S v x,
      text-fits S 1 digits10 (nat_abs v) x laws (omega arith) two_digits
          (omega (arith, range_bounds digits v held, top)) parts,
    ) in
    (
      x,
      e,
      written debug S digits v u buffer x (fit_of_magnitude S laws digits v u x held other e)
          (tenth_digit (nat_abs v) x parts) (shown_pos S laws (nat_abs v) u x form) enough,
    )

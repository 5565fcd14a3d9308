-- ===== src/Bench/Report/Signed.antt =====
-- `UnitRepr` of include/shclog/bench/report.hpp at a signed integer type, with `write_number` of
-- include/shclog/fmt.hpp. `digits` is that of the type, 63 for an `i64`.
pub mod Mirror
pub mod Text
mod Examples
use shclog.Prelude.{
  ℕ, zero, suc, ◌+◌, ◌*◌, ◌-◌, ◌/◌, ◌%◌, ◌^◌, Bool, true, false, not, ◌&&◌, ◌||◌, leb, ltb, ◌==◌,
  if◌then◌else◌, Option, none, some, List, [], ◌∷◌,
}
use shclog.Prelude.Int.{ℤ, pos, negsuc, nat_abs, neg_ℤ, tdiv, tmod, leb_ℤ, ltb_ℤ}
use shclog.Cast.{signed, in_range, static_cast}
use shclog.Decimal.{to_chars}
use shclog.Io.Exec.{Exec, returns, aborts}
use shclog.Bench.Report.{UnitScale, last_unit, ratio}
use shclog.Bench.Report.Write.{Cursor, write_chars, write_rest}

-- `ValueInUnit<T>`
pub record ValueInUnit (M : Type 0) : Type 0 where
  pub whole : ℤ
  pub tenth : ℕ
  pub measure : M

module _ (S : UnitScale) where
  -- The ratio is cast to an `isize` before it is negated.
  unfoldable pub fills_unit : ℤ → S.Measure → S.Measure → Bool
  unfolding ratio static_cast
  fills_unit v from to =
      let r = ratio S from to in
      leb_ℤ (pos r) v || leb_ℤ v (neg_ℤ (static_cast (signed 63) (pos r)))

  unfoldable pub climb : ℕ → ℤ → S.Measure → ℕ → ℕ
  unfolding fills_unit
  climb zero value u idx = idx
  climb (suc fuel) value u idx =
      let rest = climb fuel value u (suc idx) in
      if ltb idx (last_unit S) && fills_unit value u (S.from (suc idx)) then rest else idx

  unfoldable pub biggest_unit_fit : ℤ → S.Measure → S.Measure
  unfolding climb
  biggest_unit_fit value u =
      S.from (climb (last_unit S - S.to_underlying u) value u (S.to_underlying u))

  -- `rem < 0 ? -rem : rem`
  abbrev pub magnitude : ℤ → ℤ
  magnitude rem = if ltb_ℤ rem (pos 0) then neg_ℤ rem else rem

  -- `int_cast<usize>` of a number that is not negative.
  abbrev pub as_usize : ℤ → Option ℕ
  as_usize (pos n) = some n
  as_usize (negsuc n) = none

  abbrev pub tenth_of : ℕ → Option ℕ → Option ℕ
  tenth_of r none = none
  tenth_of r (some rem) =
      let tenth = rem * 10 % 2 ^ 64 / r in if leb 256 tenth then none else some tenth

  -- the end of `fit`, from the test on the ratio on
  abbrev pub shown : ℤ → S.Measure → Option ℕ → Option (ValueInUnit S.Measure)
  shown whole b none = none
  shown whole b (some tenth) = some (record { whole = whole; tenth = tenth; measure = b })

  unfoldable pub with_tenth : ℕ → ℤ → ℕ → S.Measure → Option (ValueInUnit S.Measure)
  unfolding in_range
  with_tenth digits value r b =
      let whole = tdiv value r in
      if in_range (signed digits) whole
      then (if not (r == 1) && (ltb_ℤ whole (pos 10) && ltb_ℤ (negsuc 9) whole)
          then shown whole b (tenth_of r (as_usize (magnitude (tmod value r))))
          else shown whole b (some 0))
      else none

  -- A cast that its assertion stops is `none`.
  unfoldable pub fit : ℕ → ℤ → S.Measure → Option (ValueInUnit S.Measure)
  unfolding ratio biggest_unit_fit with_tenth in_range
  fit digits value u =
      let b = biggest_unit_fit value u in
      let r = ratio S u b in
      if in_range (signed digits) (pos r) then with_tenth digits value r b else none

-- `std::to_chars` of a signed number
unfoldable pub to_chars_signed : ℤ → List ℕ
unfolding to_chars
to_chars_signed (pos n) = to_chars n
to_chars_signed (negsuc n) = b'-' ∷ to_chars (suc n)

unfoldable pub write_number : List ℕ → ℤ → Option Cursor
unfolding to_chars_signed write_chars
write_number buffer v = write_chars buffer (to_chars_signed v)

module _ (debug : Bool) (S : UnitScale) where
  -- `write(const ValueInUnit &, Slice &)`: the buffer and the number of bytes written.
  unfoldable pub write : ValueInUnit S.Measure → List ℕ → Exec (Option Cursor)
  unfolding write_number write_rest
  write v buffer = write_rest debug S v.tenth v.measure (write_number buffer v.whole)

  -- `write(value, unit, Slice &)`
  unfoldable pub write_value : ℕ → ℤ → S.Measure → List ℕ → Exec (Option Cursor)
  unfolding fit write
  write_value digits value u buffer = elim (fit S digits value u) [
    | none ↦ aborts
    | some v ↦ write v buffer
  ]

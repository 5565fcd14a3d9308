-- ===== src/Io/CpuList/Fields.antt =====
-- The lists that the kernel prints, and how the parser reads one field of them.
use shclog.Prelude.{
  ℕ, zero, suc, ◌+◌, ◌-◌, ◌/◌, ◌%◌, ◌^◌, ◌≤◌, ◌<◌, ◌≡◌, false, ltb, ◌==◌, List, [], ◌∷◌, ◌++◌, refl,
  ap, arith, dec_lt, lt→ltb,
}
use mathlib.Core.List.{append_assoc}
use shclog.Decimal.{digits, to_chars, is_digit, Ends, from_chars-to_chars}
use shclog.Io.CpuList.{ok, split_comma, count_from, range_after, parse_field}

-- A processor, or a range of them.
pub data Range : Type 0 where
  single : ℕ → Range
  span : (first last : ℕ) → Range

abbrev pub Valid : Range → Type 0
Valid (single n) = n < 2 ^ 64
Valid (span lo hi) = (lo < 2 ^ 64 - 1) × (hi < 2 ^ 64 - 1)

abbrev pub AllValid : List Range → Type 0
AllValid [] = Unit {0}
AllValid (r ∷ rs) = Valid r × AllValid rs

unfoldable pub text : Range → List ℕ
text (single n) = to_chars n
text (span lo hi) = to_chars lo ++ (b'-' ∷ to_chars hi)

abbrev pub items : Range → List ℕ
items (single n) = n ∷ []
items (span lo hi) = lo ∷ count_from (hi - lo) (suc lo)

-- The ranges with commas between them, and the bytes `t` behind.
unfoldable pub printed : Range → List Range → List ℕ → List ℕ
unfolding text
printed r [] t = text r ++ t
printed r (s ∷ rs) t = text r ++ (b',' ∷ printed s rs t)

abbrev pub expanded : Range → List Range → List ℕ
expanded r [] = items r
expanded r (s ∷ rs) = items r ++ expanded s rs

-- No byte is `mark`.
abbrev pub Without : ℕ → List ℕ → Type 0
Without mark [] = Unit {0}
Without mark (c ∷ cs) = ((c == mark) ≡ false) × Without mark cs

pub append-Without :
    (mark : ℕ) (xs ys : List ℕ) → Without mark xs → Without mark ys → Without mark (xs ++ ys)
append-Without mark [] ys h k = k
append-Without mark (x ∷ xs) ys (e, h) k = (e, append-Without mark xs ys h k)

digits-Without : (mark fuel n : ℕ) → is_digit mark ≡ false → n ≤ fuel → Without mark (digits fuel n)
unfolding digits
digits-Without mark zero n m h = (ground arith, tt)
digits-Without mark (suc fuel) n m h = elim (dec_lt n 10) [
  | yes l ↦ rw (lt→ltb n 10 l) (ground arith, tt)
  | no g ↦
      let large : ltb n 10 ≡ false = ground arith in
      let last : (48 + n % 10 == mark) ≡ false = last_digit (n % 10) (omega arith) in
      rw large (
        append-Without mark (digits fuel (n / 10)) ((48 + n % 10) ∷ [])
          (digits-Without mark fuel (n / 10) m (omega arith)) (last, tt))
]
  where
    last_digit : (d : ℕ) → d < 10 → (48 + d == mark) ≡ false
    last_digit d l = ground arith

-- A range is printed in digits and dashes.
pub text-Without :
    (mark : ℕ) (r : Range) → is_digit mark ≡ false → (b'-' == mark) ≡ false → Without mark (text r)
unfolding text to_chars
text-Without mark (single n) m d = digits-Without mark n n m (omega arith)
text-Without mark (span lo hi) m d =
    append-Without mark (digits lo lo) (b'-' ∷ digits hi hi)
      (digits-Without mark lo lo m (omega arith)) (d, digits-Without mark hi hi m (omega arith))

pub split_comma-append :
    (xs ys : List ℕ)
    → Without b',' xs
    → split_comma (xs ++ ys) ≡ (xs ++ (split_comma ys).0, (split_comma ys).1)
unfolding split_comma
split_comma-append [] ys h = refl
split_comma-append (x ∷ xs) ys (e, h) = rw (split_comma-append xs ys h, e) refl

-- The bytes behind a range neither go on with a digit nor with a dash.
abbrev pub Stops : List ℕ → Type 0
Stops [] = Unit {0}
Stops (c ∷ cs) = (is_digit c ≡ false) × ((c == b'-') ≡ false)

Stops-Ends : (t : List ℕ) → Stops t → Ends t
Stops-Ends [] h = tt
Stops-Ends (c ∷ cs) (d, _) = d

range_after_lem :
    (lo hi : ℕ)
    → lo < 2 ^ 64 - 1
    → hi < 2 ^ 64 - 1
    → range_after lo hi ≡ ok (count_from (hi - lo) (suc lo))
unfolding range_after
range_after_lem lo hi l h =
    let small : (hi == 2 ^ 64 - 1) ≡ false = ground arith in
    let from : (lo + 1) % 2 ^ 64 ≡ suc lo = omega arith in
    rw (small, from) (ap (λ (m : ℕ). ok (count_from m (suc lo))) (omega arith))

pub parse_field-text :
    (r : Range) (t after : List ℕ)
    → Valid r
    → Stops t
    → parse_field (text r ++ t) after ≡ ok (items r, t ++ after)
unfolding parse_field text
parse_field-text (single n) [] after v h = rw (from_chars-to_chars n [] v tt, parse_field) refl
parse_field-text (single n) (c ∷ t) after v (d, e) =
    rw (from_chars-to_chars n (c ∷ t) v d, parse_field, e) refl
parse_field-text (span lo hi) t after (l, g) h =
    rw
      (
        append_assoc (to_chars lo) (b'-' ∷ to_chars hi) t,
        from_chars-to_chars lo (b'-' ∷ (to_chars hi ++ t)) (omega arith) refl,
        parse_field,
      )
      (rw (from_chars-to_chars hi t (omega arith) (Stops-Ends t h), range_after_lem lo hi l g) refl)

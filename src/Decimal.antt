-- ===== src/Decimal.antt =====
-- `std::to_chars` and `std::from_chars` of the standard library on decimal `usize`s.
pub mod Places
use shclog.Prelude.{
  ℕ, zero, suc, ◌+◌, ◌-◌, ◌*◌, ◌/◌, ◌%◌, ◌^◌, ◌≤◌, ◌<◌, ◌≡◌, Bool, true, false, ◌&&◌, ltb, leb,
  if◌then◌else◌, Option, none, some, List, [], ◌∷◌, ◌++◌, refl, sym, ap, subst, ◌∙◌, arith, dec_lt,
  lt→ltb,
}
use mathlib.Core.List.{append_assoc}

-- The digits of `n`, the first one first; the fuel is the number itself.
unfoldable pub digits : ℕ → ℕ → List ℕ
digits zero n = (48 + n) ∷ []
digits (suc fuel) n =
    let more = digits fuel (n / 10) ++ ((48 + n % 10) ∷ []) in
    if ltb n 10 then (48 + n) ∷ [] else more

unfoldable pub to_chars : ℕ → List ℕ
unfolding digits
to_chars n = digits n n

abbrev pub is_digit : ℕ → Bool
is_digit c = leb 48 c && leb c 57

-- The number that the leading digits continue, and the bytes behind them.
unfoldable pub scan : ℕ → List ℕ → ℕ × List ℕ
scan n [] = (n, [])
scan n (c ∷ cs) = let rest = scan (n * 10 + (c - 48)) cs in if is_digit c then rest else (n, c ∷ cs)

-- A number out of range leaves the variable, which is 0, and is skipped all the same.
abbrev pub fitting : ℕ × List ℕ → ℕ × List ℕ
fitting (n, rest) = (if ltb n (2 ^ 64) then n else 0, rest)

-- `none` is a text that does not begin with a digit: `ptr` stays at its start.
unfoldable pub from_chars : List ℕ → Option (ℕ × List ℕ)
unfolding scan
from_chars [] = none
from_chars (c ∷ cs) = if is_digit c then some (fitting (scan 0 (c ∷ cs))) else none

-- The bytes do not go on with a digit.
abbrev pub Ends : List ℕ → Type 0
Ends [] = Unit {0}
Ends (c ∷ cs) = is_digit c ≡ false

scan_digit : (n d : ℕ) (cs : List ℕ) → d < 10 → scan n ((48 + d) ∷ cs) ≡ scan (n * 10 + d) cs
unfolding scan
scan_digit n d cs h =
    let digit : is_digit (48 + d) ≡ true = ground arith in
    let back : 48 + d - 48 ≡ d = omega arith in rw (digit, back) refl

scan-digits : (fuel n : ℕ) (cs : List ℕ) → n ≤ fuel → scan 0 (digits fuel n ++ cs) ≡ scan n cs
unfolding digits
scan-digits zero n cs h = scan_digit 0 n cs (omega arith) ∙ ap (λ (t : ℕ). scan t cs) (omega arith)
scan-digits (suc fuel) n cs h = elim (dec_lt n 10) [
  | yes l ↦
      rw (lt→ltb n 10 l)
        (scan_digit 0 n cs l ∙ ap (λ (t : ℕ). scan t cs) {x = 0 * 10 + n} (omega arith))
  | no g ↦
      let large : ltb n 10 ≡ false = ground arith in
      rw large (
        ap (scan 0) (append_assoc (digits fuel (n / 10)) ((48 + n % 10) ∷ []) cs)
        ∙ scan-digits fuel (n / 10) ((48 + n % 10) ∷ cs) (omega arith)
        ∙ scan_digit (n / 10) (n % 10) cs (omega arith)
        ∙ ap (λ (t : ℕ). scan t cs) (omega arith))
]

scan_end : (n : ℕ) (cs : List ℕ) → Ends cs → scan n cs ≡ (n, cs)
unfolding scan
scan_end n [] e = refl
scan_end n (c ∷ cs) e = rw e refl

abbrev pub Begins : List ℕ → Type 0
Begins [] = ⊥
Begins (c ∷ cs) = is_digit c ≡ true

digits-Begins : (fuel n : ℕ) (cs : List ℕ) → n ≤ fuel → Begins (digits fuel n ++ cs)
unfolding digits
digits-Begins zero n cs h = ground arith
digits-Begins (suc fuel) n cs h = elim (dec_lt n 10) [
  | yes l ↦ rw (lt→ltb n 10 l) (ground arith)
  | no g ↦
      let large : ltb n 10 ≡ false = ground arith in
      rw large (
        subst Begins (sym (append_assoc (digits fuel (n / 10)) ((48 + n % 10) ∷ []) cs))
          (digits-Begins fuel (n / 10) ((48 + n % 10) ∷ cs) (omega arith)))
]

pub to_chars-Begins : (n : ℕ) (cs : List ℕ) → Begins (to_chars n ++ cs)
unfolding to_chars
to_chars-Begins n cs = digits-Begins n n cs (omega arith)

from_chars-scan : (cs : List ℕ) → Begins cs → from_chars cs ≡ some (fitting (scan 0 cs))
unfolding from_chars
from_chars-scan [] b = absurd b
from_chars-scan (c ∷ cs) b = rw b refl

-- A number that fits is read back, up to the first byte that is no digit.
pub from_chars-to_chars :
    (n : ℕ) (cs : List ℕ) → n < 2 ^ 64 → Ends cs → from_chars (to_chars n ++ cs) ≡ some (n, cs)
unfolding to_chars
from_chars-to_chars n cs h e =
    from_chars-scan (digits n n ++ cs) (digits-Begins n n cs (omega arith))
    ∙ ap (λ (x : ℕ × List ℕ). some (fitting x)) (scan-digits n n cs (omega arith) ∙ scan_end n cs e)
    ∙ ap (λ (b : Bool). some (if b then n else 0, cs)) (lt→ltb n (2 ^ 64) h)

-- ===== src/Decimal/Places.antt =====
-- How many digits a number has at most.
use shclog.Prelude.{
  ℕ, zero, suc, ◌+◌, ◌*◌, ◌/◌, ◌%◌, ◌^◌, ◌≤◌, ◌<◌, ◌≡◌, false, ltb, [], ◌∷◌, length, length-append,
  arith, dec_lt, lt→ltb, subst, sym,
}
use native.Mathlib.Nat.{pow-suc}
use shclog.Decimal.{digits, to_chars}

-- The numbers below `top` have at most `places` digits.
abbrev Fit : ℕ → ℕ → Type 0
Fit top places = (fuel n : ℕ) → n ≤ fuel → n < top → length (digits fuel n) ≤ places

Fit-digit : Fit 10 1
unfolding digits
Fit-digit zero n h l = omega arith
Fit-digit (suc fuel) n h l = rw (lt→ltb n 10 l) (omega arith)

Fit-more : (top places : ℕ) → 0 < places → Fit top places → Fit (top * 10) (suc places)
unfolding digits
Fit-more top places some_place fit zero n h l = omega arith
Fit-more top places some_place fit (suc fuel) n h l = elim (dec_lt n 10) [
  | yes g ↦ rw (lt→ltb n 10 g) (omega arith)
  | no g ↦
      let large : ltb n 10 ≡ false = ground arith in
      rw (large, length-append (digits fuel (n / 10)) ((48 + n % 10) ∷ []))
        (let rest : length (digits fuel (n / 10)) ≤ places =
            fit fuel (n / 10) (omega arith) (omega arith) in
          omega arith)
]

Fit-pow : (k : ℕ) → Fit (10 ^ suc k) (suc k)
Fit-pow zero = Fit-digit
Fit-pow (suc k) =
    subst (λ (top : ℕ). Fit top (suc (suc k))) (sym (pow-suc 10 (suc k)))
      (Fit-more (10 ^ suc k) (suc k) (omega arith) (Fit-pow k))

pub length-to_chars : (k n : ℕ) → n < 10 ^ suc k → length (to_chars n) ≤ suc k
unfolding to_chars
length-to_chars k n l = Fit-pow k n n (omega arith) l

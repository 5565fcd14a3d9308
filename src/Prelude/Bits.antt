-- ===== src/Prelude/Bits.antt =====
-- `x & mask` and the power-of-two test `c & (c - 1)`, as arithmetic at every width.
use Prim.Native.Nat.{
  ℕ, zero, suc, ◌+◌, ◌-◌, ◌*◌, ◌/◌, ◌%◌, ◌^◌, ◌≤◌, ◌<◌, min, bit_and, digits, bit_and-bitwise,
}
use mathlib.Core.Path.{◌≡◌, refl, sym, ap, ◌∙◌}
use native.Mathlib.Omega.{arith}
use native.Mathlib.Nat.{
  pow-succ', one-le-pow, mod-lt, mod-eq_of_lt, mod-add-div, mul-add-mod_self_left, zero-mod,
  mod_self,
}
use native.Mathlib.Decide.{ℕ_discrete}
use mathlib.Core.Logic.{◌≢◌}

-- The digits of `a & b`, with a fuel of its own.
zero_of_le : (a : ℕ) → a ≤ 0 → a ≡ 0
zero_of_le a h = omega arith

half_mask : (p : ℕ) → 1 ≤ p → (2 * p - 1) / 2 ≡ p - 1
half_mask p h = omega arith

abbrev conj : ℕ → ℕ → ℕ → ℕ
conj n a b = digits (λ _. zero) min n a b

-- The remainder by an even number, from that of the half.
pub mod_double : (a p : ℕ) → 0 < p → a % (2 * p) ≡ a / 2 % p * 2 + a % 2
mod_double a p h =
    ap (λ (t : ℕ). t % (2 * p)) (omega (arith, mod-add-div (a / 2) p))
    ∙ mul-add-mod_self_left (2 * p) (a / 2 / p) (a / 2 % p * 2 + a % 2)
    ∙ mod-eq_of_lt (omega (arith, mod-lt (a / 2) h))

conj-mask : (n a k : ℕ) → a ≤ n → conj n a (2 ^ k - 1) ≡ a % 2 ^ k
conj-mask zero a k h = rw (zero_of_le a h) (sym (zero-mod (2 ^ k)))
conj-mask (suc n) zero k h = sym (zero-mod (2 ^ k))
conj-mask (suc n) (suc a) zero h = omega (arith, conj-mask n (suc a / 2) 0 (omega arith))
conj-mask (suc n) (suc a) (suc k) h =
    rw (pow-succ', half_mask (2 ^ k) (one-le-pow k 2 (omega arith)))
      (omega (
        arith,
        mod_double (suc a) (2 ^ k) (one-le-pow k 2 (omega arith)),
        conj-mask n (suc a / 2) k (omega arith),
        one-le-pow k 2 (omega arith),
      ))

-- A mask of `k` ones keeps the remainder by `2 ^ k`.
pub bit_and-mask : (a k : ℕ) → bit_and a (2 ^ k - 1) ≡ a % 2 ^ k
bit_and-mask a k = bit_and-bitwise a (2 ^ k - 1) ∙ conj-mask a a k (omega arith)

conj_self : (n a : ℕ) → a ≤ n → conj n a a ≡ a
conj_self zero a h = omega arith
conj_self (suc n) zero h = refl
conj_self (suc n) (suc a) h = omega (arith, conj_self n (suc a / 2) (omega arith))

-- `c & (c - 1)` clears the lowest one, so a number with a single one is left with none.
pub pow-bit_and_pred : (k : ℕ) → bit_and (2 ^ k) (2 ^ k - 1) ≡ 0
pow-bit_and_pred k = bit_and-mask (2 ^ k) k ∙ mod_self (2 ^ k)

conj_pred-IsPow : (n c : ℕ) → 1 ≤ c → c ≤ n → conj n c (c - 1) ≡ 0 → (k : ℕ) × (c ≡ 2 ^ k)
conj_pred-IsPow zero c h p e = absurd (omega arith)
conj_pred-IsPow (suc n) zero h p e = absurd (omega arith)
conj_pred-IsPow (suc n) (suc zero) h p e = (0, refl)
conj_pred-IsPow (suc n) (suc (suc c)) h p e = elim (ℕ_discrete (c % 2) 0) [
  | yes even ↦
      let (k, q) =
        conj_pred-IsPow n (suc (suc c) / 2) (omega arith) (omega arith)
          (rw (halved even) at (left_zero _ _ e)) in
      (suc k, omega (arith, pow-succ' 2 k))
  | no odd ↦ absurd (
      omega
        (arith, conj_self n (suc (suc c) / 2) (omega arith), rw (same odd) at (left_zero _ _ e)))
]
  where
    halved : c % 2 ≡ 0 → (suc (suc c) - 1) / 2 ≡ suc (suc c) / 2 - 1
    halved h = omega arith

    same : c % 2 ≢ 0 → (suc (suc c) - 1) / 2 ≡ suc (suc c) / 2
    same h = omega arith

    left_zero : (a b : ℕ) → a * 2 + b ≡ 0 → a ≡ 0
    left_zero a b h = omega arith

-- Only a power of two passes the test.
pub IsPow_of_bit_and_pred : (c : ℕ) → 1 ≤ c → bit_and c (c - 1) ≡ 0 → (k : ℕ) × (c ≡ 2 ^ k)
IsPow_of_bit_and_pred c h e =
    conj_pred-IsPow c c h (omega arith) (sym (bit_and-bitwise c (c - 1)) ∙ e)

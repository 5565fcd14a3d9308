-- ===== src/Prelude/Wrap.antt =====
-- Free-running counters over 2^k slots: the ticket `t` goes to slot `t % 2^k`.
use Prim.Native.Nat.{ℕ, zero, suc, ◌+◌, ◌-◌, ◌*◌, ◌/◌, ◌%◌, ◌^◌, ◌≤◌, ◌<◌, bit_and}
use mathlib.Core.Path.{◌≡◌, sym, ap, ◌∙◌}
use native.Mathlib.Omega.{arith}
use native.Mathlib.Nat.{mod-add-div, pow-zero, pow-succ', add-zero, mul-one, mul-add-mod_self_left}
use shclog.Prelude.Bits.{bit_and-mask}

-- Within fewer than `cap` tickets of one another, two tickets share a slot only if they are equal.
pub ticket_unique : (cap a b : ℕ) → a ≤ b → b < a + cap → a % cap ≡ b % cap → a ≡ b
ticket_unique cap a b h k e = grind (arith, mod-add-div a cap, mod-add-div b cap)

pub pow_split : (k d : ℕ) → 2 ^ (k + d) ≡ 2 ^ k * 2 ^ d
pow_split k zero = rw (pow-zero, add-zero, mul-one)
pow_split k (suc d) =
    let e : k + suc d ≡ suc (k + d) = omega arith in
    rw (e, pow-succ' 2 (k + d), pow-succ' 2 d, pow_split k d) (omega arith)

pub mod_of_product : (a c d : ℕ) → a % (c * d) % c ≡ a % c
mod_of_product a c d =
    sym (mul-add-mod_self_left c (d * (a / (c * d))) (a % (c * d)))
    ∙ ap (λ (t : ℕ). t % c) (omega (arith, mod-add-div a (c * d)))

-- The mask of 2^k slots reads a counter of `w` bits as if the counter did not wrap.
pub mask_of_word : (w k t : ℕ) → k ≤ w → bit_and (t % 2 ^ w) (2 ^ k - 1) ≡ t % 2 ^ k
mask_of_word w k t h =
    bit_and-mask (t % 2 ^ w) k
    ∙ ap (λ (m : ℕ). t % m % 2 ^ k)
        (ap (λ (e : ℕ). 2 ^ e) {x = w} (omega arith) ∙ pow_split k (w - k))
    ∙ mod_of_product t (2 ^ k) (2 ^ (w - k))

-- ===== src/Math/Pow.antt =====
-- The squaring loop computes the power.
use shclog.Prelude.{
  ℕ, zero, suc, ◌*◌, ◌/◌, ◌%◌, ◌^◌, ◌<◌, ◌≤◌, ◌≡◌, sym, ap, ◌∙◌, some, arith, ◌≢◌, ℕ_discrete,
}
use native.Mathlib.Nat.{
  mod-eq_of_lt, mod-lt, mod-mod, mul-one, pow-suc, pow-zero, mul_comm, mod-add-div,
  mul-add-mod_self_left,
}
use shclog.Math.{ipow_loop, ipow}

-- A factor may be reduced first.
mod-mul-mod : (a b m : ℕ) → a % m * b % m ≡ a * b % m
mod-mul-mod a b m =
    sym (mul-add-mod_self_left m (a / m * b) (a % m * b))
    ∙ ap (λ (t : ℕ). t % m) (omega (arith, ap (λ (t : ℕ). t * b) (mod-add-div a m)))

pow-mod : (a e m : ℕ) → (a % m) ^ e % m ≡ a ^ e % m
pow-mod a zero m = rw (pow-zero, pow-zero)
pow-mod a (suc e) m =
    ap (λ (t : ℕ). t % m) (pow-suc (a % m) e)
    ∙ sym (mod-mul-mod ((a % m) ^ e) (a % m) m)
    ∙ ap (λ (t : ℕ). t * (a % m) % m) (pow-mod a e m)
    ∙ ap (λ (t : ℕ). t % m) (mul_comm (a ^ e % m) (a % m))
    ∙ mod-mul-mod a (a ^ e % m) m
    ∙ ap (λ (t : ℕ). t % m) (mul_comm a (a ^ e % m))
    ∙ mod-mul-mod (a ^ e) a m
    ∙ ap (λ (t : ℕ). t % m) (sym (pow-suc a e))

square_pow : (b e : ℕ) → (b * b) ^ e ≡ b ^ (2 * e)
square_pow b zero = rw (pow-zero, pow-zero)
square_pow b (suc e) =
    let q : 2 * suc e ≡ suc (suc (2 * e)) = omega arith in
    rw (q, pow-suc, pow-suc, pow-suc, square_pow b e) (omega arith)

mul-mod-mod : (a b m : ℕ) → a * (b % m) % m ≡ a * b % m
mul-mod-mod a b m =
    ap (λ (t : ℕ). t % m) (mul_comm a (b % m))
    ∙ mod-mul-mod b a m
    ∙ ap (λ (t : ℕ). t % m) (mul_comm b a)

-- A round on an even exponent keeps `result * base ^ exp`.
even_round : (r b h m : ℕ) → r * (b * b % m) ^ h % m ≡ r * b ^ (2 * h) % m
even_round r b h m =
    sym (mul-mod-mod r ((b * b % m) ^ h) m)
    ∙ ap (λ (t : ℕ). r * t % m) (pow-mod (b * b) h m ∙ ap (λ (t : ℕ). t % m) (square_pow b h))
    ∙ mul-mod-mod r (b ^ (2 * h)) m

-- On an odd exponent the round takes the odd factor into the result.
odd_round : (r b h m : ℕ) → r * b % m * (b * b % m) ^ h % m ≡ r * b ^ suc (2 * h) % m
odd_round r b h m =
    mod-mul-mod (r * b) ((b * b % m) ^ h) m
    ∙ even_round (r * b) b h m
    ∙ ap (λ (t : ℕ). t % m) (rw pow-suc (omega arith))

pow_none : (m r b : ℕ) → r < m → some r ≡ some (r * b ^ 0 % m)
pow_none m r b h = ap some (sym (rw (pow-zero, mul-one) (mod-eq_of_lt h)))

power_one : (b : ℕ) → b ≡ b ^ 1
power_one b = sym (pow-suc b 0 ∙ rw pow-zero (omega arith))

pow_once : (m r b : ℕ) → some (r * b % m * b ^ 0 % m) ≡ some (r * b ^ 1 % m)
pow_once m r b =
    ap some (rw pow-zero (rw mul-one (mod-mod (r * b) m ∙ ap (λ (t : ℕ). r * t % m) (power_one b))))

ipow_loop-eq-pow :
    (m fuel r b e : ℕ) → 1 < m → r < m → e ≤ fuel → ipow_loop m fuel r b e ≡ some (r * b ^ e % m)
unfolding ipow_loop
ipow_loop-eq-pow m zero r b zero hm hr he = pow_none m r b hr
ipow_loop-eq-pow m zero r b (suc e) hm hr he = absurd (omega arith)
ipow_loop-eq-pow m (suc fuel) r b zero hm hr he = pow_none m r b hr
ipow_loop-eq-pow m (suc fuel) r b (suc zero) hm hr he =
    ipow_loop-eq-pow m fuel (r * b % m) b 0 hm (mod-lt (r * b) (omega arith)) (omega arith)
    ∙ pow_once m r b
ipow_loop-eq-pow m (suc fuel) r b (suc (suc e)) hm hr he = elim (ℕ_discrete (e % 2) 0) [
  | yes even ↦ ground (
    arith,
    ipow_loop-eq-pow m fuel r (b * b % m) (suc (suc e) / 2) hm hr (omega arith)
        ∙ ap some (even_round r b (suc (suc e) / 2) m)
        ∙ ap (λ (t : ℕ). some (r * b ^ t % m)) (twice even),
  )
  | no odd ↦ ground (
    arith,
    ipow_loop-eq-pow m fuel (r * b % m) (b * b % m) (suc (suc e) / 2) hm
          (mod-lt (r * b) (omega arith)) (omega arith)
        ∙ ap some (odd_round r b (suc (suc e) / 2) m)
        ∙ ap (λ (t : ℕ). some (r * b ^ t % m)) (twice_suc odd),
  )
]
  where
    twice : e % 2 ≡ 0 → 2 * (suc (suc e) / 2) ≡ suc (suc e)
    twice h = omega arith

    twice_suc : e % 2 ≢ 0 → suc (2 * (suc (suc e) / 2)) ≡ suc (suc e)
    twice_suc h = omega arith

-- On an unsigned type of `limit` values `ipow` ends, and gives the power modulo `limit`.
pub ipow-eq-pow : (limit b e : ℕ) → 1 < limit → ipow limit b e ≡ some (b ^ e % limit)
unfolding ipow
ipow-eq-pow m b e h =
    ipow_loop-eq-pow m e 1 b e h h (omega arith) ∙ ap (λ (t : ℕ). some (t % m)) (omega arith)

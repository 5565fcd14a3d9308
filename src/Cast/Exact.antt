-- ===== src/Cast/Exact.antt =====
-- What a cast keeps: values that the target type holds, and every value on the way through a type
-- that is no narrower.
use shclog.Prelude.{suc, ◌-◌, ◌%◌, ◌^◌, ◌≡◌, true, false, ltb, refl, ap, arith, ltb→lt}
use shclog.Prelude.Int.{ℤ, pos, negsuc}
use native.Mathlib.Nat.{pow-succ', mod-eq_of_lt}
use shclog.Cast.{IntType, unsigned, signed, in_range, of_word, static_cast}

-- A value that the type holds keeps its value.
pub static_cast-kept : (t : IntType) (v : ℤ) → in_range t v ≡ true → static_cast t v ≡ v
unfolding static_cast in_range of_word
static_cast-kept (unsigned d) (pos n) h = ap pos (mod-eq_of_lt (ltb→lt n (2 ^ d) h))
static_cast-kept (unsigned d) (negsuc n) h = ground arith
static_cast-kept (signed d) (pos n) h =
    let l = ltb→lt n (2 ^ d) h in
    let e : n % 2 ^ suc d ≡ n = mod-eq_of_lt (omega (arith, l, pow-succ' 2 d)) in rw (e, h) refl
static_cast-kept (signed d) (negsuc n) h =
    let l = ltb→lt n (2 ^ d) h in
    let e : n % 2 ^ suc d ≡ n = mod-eq_of_lt (omega (arith, l, pow-succ' 2 d)) in
    let high : ltb (2 ^ suc d - 1 - n) (2 ^ d) ≡ false = (let p = pow-succ' 2 d in ground arith) in
    let back : 2 ^ suc d - 1 - (2 ^ suc d - 1 - n) ≡ n = omega (arith, l, pow-succ' 2 d) in
    rw (e, high, back) refl

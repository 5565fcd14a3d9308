-- ===== src/Cast/Floating/Exact.antt =====
-- What the assertion of the cast from a floating-point type lets through.
use shclog.Prelude.{
  ℕ, zero, suc, ◌^◌, ◌≤◌, ◌<◌, ◌≡◌, Bool, true, false, ◌&&◌, ltb, if◌then◌else◌, refl, sym, arith,
  Bool-cases, inl, inr, ◌⊎◌, lt→ltb, dec_lt,
}
use native.Mathlib.Nat.{pow-succ', one-le-pow, pow-le-pow_right}
use shclog.Io.Exec.{returns, aborts}
use shclog.Cast.{IntType, unsigned, signed, in_range}
use shclog.Cast.Floating.{
  Floating, nan, infinite, finite, lt_whole, ge_minus, gt_minus_one, is_finite, Holds, hi, guard,
  cut, truncate, int_cast,
}

hi-eq : (d : ℕ) → hi (suc d) ≡ 2 ^ suc d
hi-eq d = omega (arith, pow-succ' 2 d, one-le-pow d 2 (omega arith))

pub pow_mono : (a b : ℕ) → a ≤ b → 2 ^ a ≤ 2 ^ b
pow_mono a b h = pow-le-pow_right {n = 2} (omega arith) h

abbrev pub HasBits : IntType → Type 0
HasBits (unsigned digits) = 0 < digits
HasBits (signed digits) = 0 < digits

-- The limits of the two tests, at the power of two of the type: `limit` is 2^digits.
in_signed :
    (d limit : ℕ)
    → 2 ^ d ≡ limit
    → (negative : Bool) (whole : ℕ) (f : Bool)
    → (ge_minus (finite negative whole f) limit && lt_whole (finite negative whole f) limit) ≡ true
    → in_range (signed d) (cut (finite negative whole f)) ≡ true
unfolding in_range
in_signed d limit e true zero f h = ground arith
in_signed d limit e true (suc w) f h = ground arith
in_signed d limit e false w f h = ground arith

in_unsigned :
    (d limit : ℕ)
    → 2 ^ d ≡ limit
    → 0 < limit
    → (negative : Bool) (whole : ℕ) (f : Bool)
    → (gt_minus_one (finite negative whole f) && lt_whole (finite negative whole f) limit) ≡ true
    → in_range (unsigned d) (cut (finite negative whole f)) ≡ true
unfolding in_range
in_unsigned d limit e p true zero f h = ground arith
in_unsigned d limit e p true (suc w) f h = ground arith
in_unsigned d limit e p false w f h = ground arith

small_signed :
    (d : ℕ) (negative : Bool) (whole : ℕ) (f : Bool)
    → whole < 2 ^ d
    → in_range (signed d) (cut (finite negative whole f)) ≡ true
unfolding in_range
small_signed d true zero f h = ground arith
small_signed d true (suc w) f h = ground arith
small_signed d false w f h = ground arith

small_unsigned :
    (d : ℕ) (negative : Bool) (whole : ℕ) (f : Bool)
    → whole < 2 ^ d
    → gt_minus_one (finite negative whole f) ≡ true
    → in_range (unsigned d) (cut (finite negative whole f)) ≡ true
unfolding in_range
small_unsigned d true zero f h g = ground arith
small_unsigned d true (suc w) f h g = ground arith
small_unsigned d false w f h g = ground arith

pow_pos : (k : ℕ) → 0 < 2 ^ k
pow_pos k = one-le-pow k 2 (omega arith)

-- What the assertion lets through is finite, and the type holds its whole part.
guard-in_range :
    (e : ℕ) (to : IntType) (v : Floating)
    → HasBits to
    → Holds e v
    → guard e to v ≡ true
    → (is_finite v && in_range to (cut v)) ≡ true
unfolding guard
guard-in_range e (signed zero) v some_bits held ok = absurd (omega (arith, some_bits))
guard-in_range e (unsigned zero) v some_bits held ok = absurd (omega (arith, some_bits))
guard-in_range e (signed (suc d)) nan some_bits held ok = ground arith
guard-in_range e (signed (suc d)) (infinite negative) some_bits held ok = ground arith
guard-in_range e (signed (suc d)) (finite negative w f) some_bits held ok =
    elim (dec_lt (suc d) e) [
      | yes l ↦
          in_signed (suc d) (hi (suc d)) (sym (hi-eq d)) negative w f
            (rw (lt→ltb (suc d) e l) at ok)
      | no g ↦
          small_signed (suc d) negative w f (omega (arith, held, pow_mono e (suc d) (omega arith)))
    ]
guard-in_range e (unsigned (suc d)) nan some_bits held ok = ground arith
guard-in_range e (unsigned (suc d)) (infinite negative) some_bits held ok = ground arith
guard-in_range e (unsigned (suc d)) (finite negative w f) some_bits held ok =
    elim (dec_lt (suc d) e) [
      | yes l ↦
          in_unsigned (suc d) (hi (suc d)) (sym (hi-eq d)) (omega (arith, hi-eq d, pow_pos (suc d)))
            negative w f (rw (lt→ltb (suc d) e l) at ok)
      | no g ↦
          small_unsigned (suc d) negative w f
            (omega (arith, held, pow_mono e (suc d) (omega arith)))
            (let other : ltb (suc d) e ≡ false = ground arith in rw other at ok)
    ]

wide : (d e : ℕ) → (d < e) ⊎ (2 ^ e ≤ 2 ^ d)
wide d e = elim (dec_lt d e) [ yes l ↦ inl l | no g ↦ inr (pow_mono e d (omega arith)) ]

-- The assertion lets a whole value through exactly when the type holds it.
guard-whole :
    (e : ℕ) (to : IntType) (negative : Bool) (w : ℕ)
    → HasBits to
    → w < 2 ^ e
    → guard e to (finite negative w false) ≡ in_range to (cut (finite negative w false))
unfolding guard in_range
guard-whole e (signed zero) negative w p h = absurd (omega (arith, p))
guard-whole e (unsigned zero) negative w p h = absurd (omega (arith, p))
guard-whole e (signed (suc d)) negative w p h =
    signed_whole negative w h (hi-eq d) (wide (suc d) e) (pow_pos (suc d))
  where
    signed_whole :
        (negative : Bool) (w : ℕ)
        → w < 2 ^ e
        → hi (suc d) ≡ 2 ^ suc d
        → (suc d < e) ⊎ (2 ^ e ≤ 2 ^ suc d)
        → 0 < 2 ^ suc d
        → guard e (signed (suc d)) (finite negative w false)
          ≡ in_range (signed (suc d)) (cut (finite negative w false))
    signed_whole true zero h q m p = ground arith
    signed_whole true (suc w) h q m p = ground arith
    signed_whole false w h q m p = ground arith
guard-whole e (unsigned (suc d)) negative w p h =
    unsigned_whole negative w h (hi-eq d) (wide (suc d) e) (pow_pos (suc d))
  where
    unsigned_whole :
        (negative : Bool) (w : ℕ)
        → w < 2 ^ e
        → hi (suc d) ≡ 2 ^ suc d
        → (suc d < e) ⊎ (2 ^ e ≤ 2 ^ suc d)
        → 0 < 2 ^ suc d
        → guard e (unsigned (suc d)) (finite negative w false)
          ≡ in_range (unsigned (suc d)) (cut (finite negative w false))
    unsigned_whole true zero h q m p = ground arith
    unsigned_whole true (suc w) h q m p = ground arith
    unsigned_whole false w h q m p = ground arith

-- In a debug build the cast is never undefined: a value that its assertion lets through gives its
-- whole part, which the type holds, and any other aborts; a value `whole` without a fraction, of
-- either sign, is let through exactly when the type holds it. The type has a bit at least, and finite
-- values are below 2 to the `max_exponent` of theirs.
pub int_cast-cuts :
    (e : ℕ) (to : IntType) (v : Floating) (negative : Bool) (whole : ℕ)
    → HasBits to
    → Holds e v
    → whole < 2 ^ e
    → (int_cast true e to v ≡ (if guard e to v then returns (cut v) else aborts))
      × (guard e to (finite negative whole false) ≡ in_range to (cut (finite negative whole false)))
unfolding int_cast truncate
int_cast-cuts e to v negative whole some_bits held small =
    (by_guard, guard-whole e to negative whole some_bits small)
  where
    by_guard : int_cast true e to v ≡ (if guard e to v then returns (cut v) else aborts)
    by_guard = elim (Bool-cases (guard e to v)) [
      | inl ok ↦ rw (ok, guard-in_range e to v some_bits held ok) refl
      | inr stopped ↦ rw stopped refl
    ]

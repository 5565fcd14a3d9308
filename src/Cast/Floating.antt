-- ===== src/Cast/Floating.antt =====
-- `int_cast` of include/shclog/cast.hpp from a floating-point type to an integer type.
pub mod Exact
use shclog.Prelude.{
  ℕ, zero, suc, ◌+◌, ◌-◌, ◌*◌, ◌/◌, ◌^◌, ◌≤◌, ◌<◌, ◌≡◌, Bool, true, false, not, ◌&&◌, ◌||◌, ltb,
  ◌==◌, if◌then◌else◌, refl, sym, arith, Bool-cases, inl, inr, ◌⊎◌, lt→ltb, dec_lt,
}
use shclog.Prelude.Int.{ℤ, pos, neg_ℤ}
use native.Mathlib.Nat.{pow-succ', one-le-pow, pow-le-pow_right}
use shclog.Io.Exec.{Exec, returns, aborts, undefined}
use shclog.Cast.{IntType, unsigned, signed, in_range}

-- A floating-point value: a finite one by its sign, its whole part, and whether a fraction follows.
pub data Floating : Type 0 where
  nan : Floating
  infinite : (negative : Bool) → Floating
  finite : (negative : Bool) → (whole : ℕ) → (fraction : Bool) → Floating

-- `v < n`, `v >= -n` and `v > -1` for a whole number `n`.
abbrev pub lt_whole : Floating → ℕ → Bool
lt_whole nan n = false
lt_whole (infinite negative) n = negative
lt_whole (finite true whole fraction) n = ltb 0 n || ltb 0 whole || fraction
lt_whole (finite false whole fraction) n = ltb whole n

abbrev pub ge_minus : Floating → ℕ → Bool
ge_minus nan n = false
ge_minus (infinite negative) n = not negative
ge_minus (finite true whole fraction) n = ltb whole n || (whole == n && not fraction)
ge_minus (finite false whole fraction) n = true

abbrev pub gt_minus_one : Floating → Bool
gt_minus_one nan = false
gt_minus_one (infinite negative) = not negative
gt_minus_one (finite true whole fraction) = whole == 0
gt_minus_one (finite false whole fraction) = true

abbrev pub is_finite : Floating → Bool
is_finite (finite negative whole fraction) = true
is_finite _ = false

-- A finite value of a type with this `max_exponent` is below 2 to the power of it.
abbrev pub Holds : ℕ → Floating → Type 0
Holds max_exponent (finite negative whole fraction) = whole < 2 ^ max_exponent
Holds max_exponent _ = Unit {0}

-- `std::numeric_limits<To>::max()`, and the first whole number beyond it.
abbrev pub greatest : ℕ → ℕ
greatest digits = 2 ^ digits - 1

abbrev pub hi : ℕ → ℕ
hi digits = (greatest digits / 2 + 1) * 2

-- The condition of the assertion; the comparison of `digits` is that of the compiler.
unfoldable pub guard : ℕ → IntType → Floating → Bool
guard max_exponent (signed digits) v =
    if ltb digits max_exponent
    then ge_minus v (hi digits) && lt_whole v (hi digits)
    else is_finite v
guard max_exponent (unsigned digits) v =
    if ltb digits max_exponent
    then gt_minus_one v && lt_whole v (hi digits)
    else is_finite v && gt_minus_one v

-- The whole part of a finite value with its sign.
abbrev pub cut : Floating → ℤ
cut (finite true whole fraction) = neg_ℤ (pos whole)
cut (finite false whole fraction) = pos whole
cut _ = pos 0

-- `static_cast` of a floating-point value cuts the fraction; a value beyond the type is undefined
-- behaviour.
unfoldable pub truncate : IntType → Floating → Exec ℤ
unfolding in_range
truncate to v = if is_finite v && in_range to (cut v) then returns (cut v) else undefined

unfoldable pub int_cast : Bool → ℕ → IntType → Floating → Exec ℤ
unfolding guard truncate
int_cast debug max_exponent to v =
    if guard max_exponent to v || not debug then truncate to v else aborts

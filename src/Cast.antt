-- ===== src/Cast.antt =====
-- `int_cast` of include/shclog/cast.hpp between any two integer types, and the casts to a pointer.
pub mod Exact
pub mod Floating
mod Examples
use shclog.Prelude.{
  ℕ, suc, ◌-◌, ◌%◌, ◌^◌, Bool, true, false, not, ◌&&◌, ◌||◌, ltb, ◌==◌, if◌then◌else◌,
}
use shclog.Prelude.Int.{ℤ, pos, negsuc, to_unsigned}
use shclog.Io.Exec.{Exec, returns, aborts}

-- The types of the concept `an_integer`, by their `std::numeric_limits<T>::digits`.
pub data IntType : Type 0 where
  unsigned signed : ℕ → IntType

abbrev pub bits : IntType → ℕ
bits (unsigned digits) = digits
bits (signed digits) = suc digits

-- `std::in_range<T>`
unfoldable pub in_range : IntType → ℤ → Bool
in_range (unsigned digits) (pos n) = ltb n (2 ^ digits)
in_range (unsigned digits) (negsuc n) = false
in_range (signed digits) (pos n) = ltb n (2 ^ digits)
in_range (signed digits) (negsuc n) = ltb n (2 ^ digits)

-- The value that a word has in the type.
unfoldable pub of_word : IntType → ℕ → ℤ
of_word (unsigned digits) w = pos w
of_word (signed digits) w = if ltb w (2 ^ digits) then pos w else negsuc (2 ^ suc digits - 1 - w)

-- `static_cast<T>`: the low bits of the two's complement.
unfoldable pub static_cast : IntType → ℤ → ℤ
unfolding of_word
static_cast t z = of_word t (to_unsigned (2 ^ bits t) z)

abbrev pub same_type : IntType → IntType → Bool
same_type (unsigned m) (unsigned n) = m == n
same_type (signed m) (signed n) = m == n
same_type (unsigned m) (signed n) = false
same_type (signed m) (unsigned n) = false

-- `int_cast_proxy<From>`, and the conversion that is called when <To> is known.
pub record IntCastProxy : Type 0 where
  pub v : ℤ

module _ (debug : Bool) where
  unfoldable pub convert : IntType → IntCastProxy → Exec ℤ
  unfolding in_range static_cast
  convert to proxy =
      if in_range to proxy.v || not debug then returns (static_cast to proxy.v) else aborts

  -- `int_cast<To>`; the cast to the same type does nothing.
  unfoldable pub int_cast : IntType → IntType → ℤ → Exec ℤ
  unfolding in_range static_cast
  int_cast to from v =
      if same_type to from
      then returns v
      else (if in_range to v || not debug then returns (static_cast to v) else aborts)

  -- `int_cast` without a target: the proxy, converted where it is used.
  unfoldable pub int_cast_deferred : IntType → ℤ → Exec ℤ
  unfolding convert
  int_cast_deferred to v = convert to (record { v = v })

  -- `ptr_from_int<T>`, where `T` has the alignment `alignment`; the pointer is its address.
  unfoldable pub ptr_from_int : ℕ → ℕ → Exec ℕ
  ptr_from_int alignment n =
      if (not (n == 0) && n % alignment == 0) || not debug then returns n else aborts

  -- `ptr_cast<To>`, where `To` has the alignment `alignment`.
  unfoldable pub ptr_cast : ℕ → ℕ → Exec ℕ
  ptr_cast alignment p = if p % alignment == 0 || not debug then returns p else aborts

  -- `align_cast<N>`
  unfoldable pub align_cast : ℕ → ℕ → Exec ℕ
  align_cast n p = if p % n == 0 || not debug then returns p else aborts

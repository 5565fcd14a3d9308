-- ===== src/Math.antt =====
-- include/shclog/math.hpp at an unsigned integer type of `limit` values (2^w for a w-bit type):
-- the checked sum and product, and the power by repeated squaring.
pub mod Pow
pub mod Overflow
mod Examples
use shclog.Prelude.{
  ℕ, zero, suc, ◌+◌, ◌*◌, ◌/◌, ◌%◌, Bool, true, false, not, leb, ◌==◌, if◌then◌else◌, Option, none,
  some,
}

-- `Overflow<T>`
pub record Checked : Type 0 where
  pub value : ℕ
  pub overflow : Bool

module _ (limit : ℕ) where
  -- `__builtin_add_overflow` stores the wrapped sum, and tells whether the sum did not fit.
  unfoldable pub add_with_overflow : ℕ → ℕ → Checked
  add_with_overflow a b = record { value = (a + b) % limit; overflow = leb limit (a + b) }

  unfoldable pub mul_with_overflow : ℕ → ℕ → Checked
  mul_with_overflow a b = record { value = a * b % limit; overflow = leb limit (a * b) }

  -- `while (exp)`, over `result`, `base` and `exp`; `none` stands for rounds left over when the
  -- fuel is gone.
  unfoldable pub ipow_loop : ℕ → ℕ → ℕ → ℕ → Option ℕ
  ipow_loop zero result base exp = if exp == 0 then some result else none
  ipow_loop (suc fuel) result base exp =
      let result' = if exp % 2 == 1 then result * base % limit else result in
      let exp' = exp / 2 in
      let base' = if exp' == 0 then base else base * base % limit in
      let rest = ipow_loop fuel result' base' exp' in if exp == 0 then some result else rest

  unfoldable pub ipow : ℕ → ℕ → Option ℕ
  unfolding ipow_loop
  ipow base exp = ipow_loop exp 1 base exp

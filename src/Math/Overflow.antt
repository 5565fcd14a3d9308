-- ===== src/Math/Overflow.antt =====
-- The flag of the checked operations tells exactly when the stored value is wrong.
use shclog.Prelude.{ℕ, ◌+◌, ◌*◌, ◌<◌, ◌%◌, ◌≡◌, false, ◌↔◌, arith, leb, lt→leb_false}
use native.Mathlib.Nat.{mod-eq_of_lt, mod-lt}
use shclog.Math.{add_with_overflow, mul_with_overflow}

-- A remainder is the number itself exactly below the modulus.
wraps_iff : (limit x : ℕ) → 0 < limit → (leb limit x ≡ false) ↔ (x % limit ≡ x)
wraps_iff limit x h = (fits, exact)
  where
    fits : leb limit x ≡ false → x % limit ≡ x
    fits e = mod-eq_of_lt {n = x} {m = limit} (ground arith)

    exact : x % limit ≡ x → leb limit x ≡ false
    exact e = lt→leb_false limit x (omega (arith, mod-lt x h))

-- On a type of `limit` values, each of the two operations reports no overflow exactly when the value
-- that it stores is the true sum or product.
overflow_exact :
    (limit a b : ℕ)
    → 0 < limit
    → (((add_with_overflow limit a b).overflow ≡ false)
        ↔ ((add_with_overflow limit a b).value ≡ a + b))
      × (((mul_with_overflow limit a b).overflow ≡ false)
          ↔ ((mul_with_overflow limit a b).value ≡ a * b))
unfolding add_with_overflow mul_with_overflow
overflow_exact limit a b h = (wraps_iff limit (a + b) h, wraps_iff limit (a * b) h)

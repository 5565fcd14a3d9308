-- ===== src/Math/Examples.antt =====
-- Runs of the arithmetic helpers, and their theorems at concrete inputs.
use shclog.Prelude.{◌%◌, ◌^◌, ◌≡◌, refl, arith, some}
use shclog.Math.{ipow}
use shclog.Math.Pow.{ipow-eq-pow}

-- `ipow(1000, 3)`, the scale of a second in nanoseconds
ipow_runs : ipow (2 ^ 64) 1000 3 ≡ some 1_000_000_000
unfolding ipow
ipow_runs = refl

-- 3^41 does not fit 64 bits.
ipow-eq-pow_example : ipow (2 ^ 64) 3 41 ≡ some (3 ^ 41 % 2 ^ 64)
ipow-eq-pow_example = ipow-eq-pow (2 ^ 64) 3 41 (omega arith)

-- ===== src/Bench/Sample/Signed/Examples.antt =====
-- Signed samples of a byte.
use shclog.Prelude.{◌≡◌, true, if◌then◌else◌, [], ◌∷◌, refl, arith, replicate}
use shclog.Prelude.Int.{pos, negsuc}
use shclog.Cast.{signed}
use shclog.Bench.Sample.Signed.{
  empty_sample, push_all, all_fit, sum_from, exact, saturated, push_all-total,
}

-- -100 - 100 falls below -128, and the total is 127.
below_the_lowest :
    (push_all
      (signed 7)
      (empty_sample (signed 7) (replicate 2 (pos 0)))
      (negsuc 99 ∷ negsuc 99 ∷ [])).sum
    ≡ record { value = pos 127; overflow = true }
unfolding push_all
below_the_lowest = refl

push_all-total_example :
    (push_all
      (signed 7)
      (empty_sample (signed 7) (replicate 3 (pos 0)))
      (negsuc 99 ∷ pos 50 ∷ negsuc 69 ∷ [])).sum
    ≡ (if all_fit (signed 7) (pos 0) (negsuc 99 ∷ pos 50 ∷ negsuc 69 ∷ [])
        then exact (signed 7) (sum_from (signed 7) (pos 0) (negsuc 99 ∷ pos 50 ∷ negsuc 69 ∷ []))
        else saturated (signed 7))
push_all-total_example =
    push_all-total (signed 7) (replicate 3 (pos 0)) (negsuc 99 ∷ pos 50 ∷ negsuc 69 ∷ [])
      (omega arith)

-- ===== src/Bench/TimeScale.antt =====
-- `TimeScale` of include/shclog/bench/report.hpp.
use shclog.Prelude.{ℕ, zero, suc, ◌*◌, ◌^◌, ◌≤◌, ◌<◌, ◌≡◌, refl, arith, none, some, List, [], ◌∷◌}
use shclog.Math.{ipow}
use shclog.Bench.Report.{UnitScale, IsLawful, unit_scales_fit, each_divides}

pub data TimeMeasure : Type 0 where
  nanoseconds microseconds milliseconds seconds minutes hours : TimeMeasure

unfoldable pub index : TimeMeasure → ℕ
index nanoseconds = 0
index microseconds = 1
index milliseconds = 2
index seconds = 3
index minutes = 4
index hours = 5

-- the `static_cast`, whose argument is at most that of `hours`
unfoldable pub at_index : ℕ → TimeMeasure
at_index zero = nanoseconds
at_index (suc zero) = microseconds
at_index (suc (suc zero)) = milliseconds
at_index (suc (suc (suc zero))) = seconds
at_index (suc (suc (suc (suc zero)))) = minutes
at_index _ = hours

-- `ipow` always gives a result.
unfoldable pub thousand_to : ℕ → ℕ
unfolding ipow
thousand_to n = elim (ipow (2 ^ 64) 1000 n) [ none ↦ 0 | some p ↦ p ]

unfoldable pub scale : TimeMeasure → ℕ
unfolding thousand_to index
scale minutes = thousand_to 3 * 60
scale hours = thousand_to 3 * 60 * 60
scale u = thousand_to (index u)

-- The bytes of "ns", "µs", "ms", "s", "m" and "h".
unfoldable pub symbol : TimeMeasure → List ℕ
symbol nanoseconds = 110 ∷ 115 ∷ []
symbol microseconds = 194 ∷ 181 ∷ 115 ∷ []
symbol milliseconds = 109 ∷ 115 ∷ []
symbol seconds = 115 ∷ []
symbol minutes = 109 ∷ []
symbol hours = 104 ∷ []

abbrev pub time_scale : UnitScale
time_scale = record {
  Measure = TimeMeasure;
  to_underlying = index;
  from = at_index;
  last = hours;
  scale = scale;
  symbol = symbol;
}

at_index-index : (u : TimeMeasure) → at_index (index u) ≡ u
unfolding index at_index
at_index-index nanoseconds = refl
at_index-index microseconds = refl
at_index-index milliseconds = refl
at_index-index seconds = refl
at_index-index minutes = refl
at_index-index hours = refl

scale_pos : (u : TimeMeasure) → 0 < scale u
unfolding scale
scale_pos nanoseconds = omega arith
scale_pos microseconds = omega arith
scale_pos milliseconds = omega arith
scale_pos seconds = omega arith
scale_pos minutes = omega arith
scale_pos hours = omega arith

index_le : (u : TimeMeasure) → index u ≤ index hours
unfolding index
index_le nanoseconds = omega arith
index_le microseconds = omega arith
index_le milliseconds = omega arith
index_le seconds = omega arith
index_le minutes = omega arith
index_le hours = omega arith

index-at_index : (i : ℕ) → i ≤ index hours → index (at_index i) ≡ i
unfolding index at_index
index-at_index zero h = refl
index-at_index (suc zero) h = refl
index-at_index (suc (suc zero)) h = refl
index-at_index (suc (suc (suc zero))) h = refl
index-at_index (suc (suc (suc (suc zero)))) h = refl
index-at_index (suc (suc (suc (suc (suc i))))) h = omega arith

pub time_scale-IsLawful : IsLawful time_scale
unfolding unit_scales_fit each_divides scale index at_index
time_scale-IsLawful = record {
  from-to_underlying = at_index-index;
  to_underlying-from = index-at_index;
  bounded = index_le;
  fits = refl;
  positive = scale_pos;
}

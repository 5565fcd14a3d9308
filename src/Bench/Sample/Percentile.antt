-- ===== src/Bench/Sample/Percentile.antt =====
-- `Sample::percentile` of include/shclog/bench/sample.hpp. The floating tests and products of its
-- argument and `std::ranges::sort` are parameters.
mod Examples
pub mod History
pub mod Ranks
use shclog.Prelude.{
  ℕ, ◌-◌, Bool, true, false, not, ◌||◌, leb, ltb, ◌==◌, if◌then◌else◌, Option, none, some, List,
  ◌++◌, length, take, drop, get_elem?,
}
use shclog.Io.Exec.{Exec, returns, aborts, undefined, Expected, value, unexpected, ◌>>=◌}
use shclog.Bench.Sample.{Sample, span}

pub data PercentileError : Type 0 where
  invalid_percentile empty_samples : PercentileError

-- `is_invalid p` is `std::isnan(p) || p > 1.0 || p < 0.0`, and `scaled p n` is
-- `int_cast<usize>(p * float_cast<f64>(n))`.
pub record Floats : Type 1 where
  pub F64 : Type 0
  pub is_invalid : F64 → Bool
  pub scaled : F64 → ℕ → ℕ

module _ (debug : Bool) where
  -- `operator[]`, with its assertion
  unfoldable pub element : List ℕ → ℕ → Exec ℕ
  element samples i =
      if ltb i (length samples) || not debug
      then elim (get_elem? samples i) [ none ↦ undefined | some v ↦ returns v ]
      else aborts

  module _ (sort : List ℕ → List ℕ) where
    unfoldable pub sort_samples : Sample → Exec Sample
    unfolding span
    sort_samples s =
        if s.samples_sorted
        then returns s
        else (if leb s.count (length s.samples) || not debug
            then returns (record s {
              samples = sort (span s) ++ drop s.count s.samples;
              samples_sorted = true;
            })
            else aborts)

    unfoldable pub percentile :
        (floats : Floats) → floats.F64 → Sample → Exec (Sample × Expected ℕ PercentileError)
    unfolding sort_samples element
    percentile floats p s =
        if floats.is_invalid p
        then returns (s, unexpected invalid_percentile)
        else if s.count == 0
        then returns (s, unexpected empty_samples)
        else (sort_samples s >>= λ t.
            element t.samples (floats.scaled p (t.count - 1)) >>= λ v. returns (t, value v))

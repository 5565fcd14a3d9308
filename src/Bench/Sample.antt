-- ===== src/Bench/Sample.antt =====
-- `Sample` of include/shclog/bench/sample.hpp at an unsigned integer type of `limit` values. What
-- the allocation of its buffer answers is an argument.
pub mod Average
pub mod Percentile
pub mod Running
pub mod Reduce
pub mod Signed
pub mod Totals
use shclog.Prelude.{
  ℕ, suc, ◌-◌, min, max, Bool, false, true, leb, ◌==◌, if◌then◌else◌, Option, none, some, List, [],
  ◌∷◌, length, set, take,
}
use shclog.Math.{Checked, add_with_overflow}

pub record Sample : Type 0 where
  pub samples : List ℕ
  pub samples_sorted : Bool
  pub count : ℕ
  pub least : ℕ
  pub greatest : ℕ
  pub sum : Checked

pub data PushResult : Type 0 where
  success buffer_full : PushResult

-- `none` stands for the error of an empty sample, `OutOfMemory` in `make`.
module _ (limit : ℕ) where
  -- the members' initial values
  abbrev pub empty_sample : List ℕ → Sample
  empty_sample buffer = record {
    samples = buffer;
    samples_sorted = false;
    count = 0;
    least = limit - 1;
    greatest = 0;
    sum = record { value = 0; overflow = false };
  }

  unfoldable pub make : Option (List ℕ) → Option Sample
  make none = none
  make (some buffer) = some (empty_sample buffer)

  unfoldable pub add_total : Checked → ℕ → Checked
  unfolding add_with_overflow
  add_total t v =
      let r = add_with_overflow limit t.value v in
      if t.overflow then t else (if r.overflow then record r { value = limit - 1 } else r)

  unfoldable pub push : Sample → ℕ → Sample × PushResult
  unfolding add_total
  push s v = if leb (length s.samples) s.count then (s, buffer_full) else (
    record s {
      samples_sorted = false;
      samples = set s.samples s.count v;
      count = suc s.count;
      least = min s.least v;
      greatest = max s.greatest v;
      sum = add_total s.sum v;
    },
    success,
  )

  -- a caller that pushes one value after the other
  unfoldable pub push_all : Sample → List ℕ → Sample
  unfolding push
  push_all s [] = s
  push_all s (v ∷ vs) = push_all ((push s v).0) vs

unfoldable pub span : Sample → List ℕ
span s = take s.count s.samples

unfoldable pub min_of : Sample → Option ℕ
min_of s = if s.count == 0 then none else some s.least

unfoldable pub max_of : Sample → Option ℕ
max_of s = if s.count == 0 then none else some s.greatest

unfoldable pub total : Sample → Option Checked
total s = if s.count == 0 then none else some s.sum

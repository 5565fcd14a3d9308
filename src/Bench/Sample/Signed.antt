-- ===== src/Bench/Sample/Signed.antt =====
-- `Sample` of include/shclog/bench/sample.hpp at a signed integer type, with `add_with_overflow` of
-- include/shclog/math.hpp at any integer type.
mod Examples
use shclog.Prelude.{
  ℕ, zero, suc, ◌+◌, ◌-◌, ◌^◌, ◌≤◌, ◌≡◌, Bool, true, false, not, ◌&&◌, leb, if◌then◌else◌, List, [],
  ◌∷◌, length, set, refl, sym, ap, ◌∙◌, arith, Bool-cases, inl, inr, length-set,
}
use shclog.Prelude.Int.{ℤ, pos, negsuc, ◌+ℤ◌, min_ℤ, max_ℤ}
use shclog.Cast.{IntType, unsigned, signed, in_range, static_cast}
use shclog.Cast.Exact.{static_cast-kept}
use shclog.Bench.Sample.{PushResult, success, buffer_full}

-- `Overflow<T>`
pub record Checked : Type 0 where
  pub value : ℤ
  pub overflow : Bool

pub record Sample : Type 0 where
  pub samples : List ℤ
  pub samples_sorted : Bool
  pub count : ℕ
  pub least : ℤ
  pub greatest : ℤ
  pub sum : Checked

-- `std::numeric_limits<T>::max()` and `lowest()`
abbrev pub highest : IntType → ℤ
highest (unsigned digits) = pos (2 ^ digits - 1)
highest (signed digits) = pos (2 ^ digits - 1)

abbrev pub lowest : IntType → ℤ
lowest (unsigned digits) = pos 0
lowest (signed digits) = negsuc (2 ^ digits - 1)

module _ (T : IntType) where
  -- `__builtin_add_overflow` stores the wrapped sum, and tells whether the sum did not fit.
  unfoldable pub add_with_overflow : ℤ → ℤ → Checked
  unfolding static_cast in_range
  add_with_overflow a b = record {
    value = static_cast T (a +ℤ b);
    overflow = not (in_range T (a +ℤ b));
  }

  -- the members' initial values
  abbrev pub empty_sample : List ℤ → Sample
  empty_sample buffer = record {
    samples = buffer;
    samples_sorted = false;
    count = 0;
    least = highest T;
    greatest = lowest T;
    sum = record { value = pos 0; overflow = false };
  }

  -- A sum that does not fit is the greatest number of the type from then on.
  unfoldable pub add_total : Checked → ℤ → Checked
  unfolding add_with_overflow
  add_total t v =
      let r = add_with_overflow t.value v in
      if t.overflow then t else (if r.overflow then record r { value = highest T } else r)

  unfoldable pub push : Sample → ℤ → Sample × PushResult
  unfolding add_total
  push s v = if leb (length s.samples) s.count then (s, buffer_full) else (
    record s {
      samples_sorted = false;
      samples = set s.samples s.count v;
      count = suc s.count;
      least = min_ℤ s.least v;
      greatest = max_ℤ s.greatest v;
      sum = add_total s.sum v;
    },
    success,
  )

  -- a caller that pushes one value after the other
  unfoldable pub push_all : Sample → List ℤ → Sample
  unfolding push
  push_all s [] = s
  push_all s (v ∷ vs) = push_all ((push s v).0) vs

  -- Every sum of `acc` and the first of the values is one that the type holds.
  unfoldable pub all_fit : ℤ → List ℤ → Bool
  unfolding in_range
  all_fit acc [] = true
  all_fit acc (v ∷ vs) = in_range T (acc +ℤ v) && all_fit (acc +ℤ v) vs

  abbrev pub sum_from : ℤ → List ℤ → ℤ
  sum_from acc [] = acc
  sum_from acc (v ∷ vs) = sum_from (acc +ℤ v) vs

  abbrev pub exact : ℤ → Checked
  exact a = record { value = a; overflow = false }

  abbrev pub saturated : Checked
  saturated = record { value = highest T; overflow = true }

  -- the sample after a push with room
  push_room :
      (s : Sample) (v : ℤ)
      → suc s.count ≤ length s.samples
      → ((push s v).0.sum ≡ add_total s.sum v)
        × ((push s v).0.count ≡ suc s.count)
        × (length (push s v).0.samples ≡ length s.samples)
  unfolding push
  push_room s v h =
      let free : leb (length s.samples) s.count ≡ false = ground arith in
      rw free (refl, refl, length-set s.samples s.count v)

  add_total-exact : (a v : ℤ) → in_range T (a +ℤ v) ≡ true → add_total (exact a) v ≡ exact (a +ℤ v)
  unfolding add_total
  add_total-exact a v h = rw (h, static_cast-kept T (a +ℤ v) h) refl

  add_total-over : (a v : ℤ) → in_range T (a +ℤ v) ≡ false → add_total (exact a) v ≡ saturated
  unfolding add_total
  add_total-over a v h = rw h refl

  stays_saturated :
      (vs : List ℤ) (s : Sample)
      → s.sum ≡ saturated
      → s.count + length vs ≤ length s.samples
      → (push_all s vs).sum ≡ saturated
  unfolding push_all add_total
  stays_saturated [] s e h = e
  stays_saturated (v ∷ vs) s e h =
      let (q, c, l) = push_room s v (omega (arith, h)) in
      stays_saturated vs ((push s v).0) (q ∙ ap (λ (t : Checked). add_total t v) e)
        (omega (arith, c, l, h))

  push_all-sum :
      (vs : List ℤ) (s : Sample) (acc : ℤ)
      → s.sum ≡ exact acc
      → s.count + length vs ≤ length s.samples
      → (push_all s vs).sum ≡ (if all_fit acc vs then exact (sum_from acc vs) else saturated)
  unfolding push_all all_fit
  push_all-sum [] s acc e h = e
  push_all-sum (v ∷ vs) s acc e h =
      let (q, c, l) = push_room s v (omega (arith, h)) in
      let now = q ∙ ap (λ (t : Checked). add_total t v) e in
      elim (Bool-cases (in_range T (acc +ℤ v))) [
        | inl fits ↦ rw fits (
            push_all-sum vs ((push s v).0) (acc +ℤ v) (now ∙ add_total-exact acc v fits)
              (omega (arith, c, l, h)))
        | inr over ↦ rw over (
            stays_saturated vs ((push s v).0) (now ∙ add_total-over acc v over)
              (omega (arith, c, l, h)))
      ]

  -- A sample that takes values while its buffer has room has their exact total as long as every sum on
  -- the way is one that the type holds; from the first one that is not, its total is the greatest
  -- number of the type, marked as overflowed, whether that sum was too large or too small.
  pub push_all-total :
      (buffer vs : List ℤ)
      → length vs ≤ length buffer
      → (push_all (empty_sample buffer) vs).sum
        ≡ (if all_fit (pos 0) vs then exact (sum_from (pos 0) vs) else saturated)
  push_all-total buffer vs h = push_all-sum vs (empty_sample buffer) (pos 0) refl (omega (arith, h))

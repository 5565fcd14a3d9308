-- ===== src/Bench/Sample/Reduce.antt =====
-- `std::reduce` with `std::plus<>`, as `Sample::avg` of include/shclog/bench/sample.hpp calls it: the
-- library groups and orders the additions as it likes, and adds two samples in their own type.
use shclog.Prelude.{
  ℕ, ◌+◌, ◌%◌, ◌^◌, ◌<◌, ◌≡◌, Bool, true, false, ltb, if◌then◌else◌, List, [], ◌∷◌, ◌++◌, refl, ap,
  ◌∙◌, arith, Bool-cases, inl, inr, lt→ltb,
}
use native.Mathlib.Nat.{mod-eq_of_lt}
use shclog.Io.Exec.{Exec, returns, undefined, ◌>>=◌}
use shclog.Bench.Sample.Running.{sum_of}

-- The additions of a call: of the initial value, the samples, and sums of them. An implementation may
-- hold a sum in a variable of the result's type (`converted`), as libstdc++ does with that of a pair.
pub data Grouping : Type 0 where
  initial : Grouping
  sample : ℕ → Grouping
  plus : Grouping → Grouping → Grouping
  converted : Grouping → Grouping

abbrev pub samples_of : Grouping → List ℕ
samples_of initial = []
samples_of (sample v) = v ∷ []
samples_of (plus a b) = samples_of a ++ samples_of b
samples_of (converted a) = samples_of a

-- The same samples in another order.
pub data Permutes : List ℕ → List ℕ → Type 0 where
  same : {xs : List ℕ} → Permutes xs xs
  keep : (x : ℕ) {xs ys : List ℕ} → Permutes xs ys → Permutes (x ∷ xs) (x ∷ ys)
  swap : (x y : ℕ) {xs : List ℕ} → Permutes (x ∷ y ∷ xs) (y ∷ x ∷ xs)
  next : {xs ys zs : List ℕ} → Permutes xs ys → Permutes ys zs → Permutes xs zs

-- What is documented of `std::reduce`: each sample is added once.
abbrev pub AddsAll : (List ℕ → Grouping) → Type 0
AddsAll grouping = (xs : List ℕ) → Permutes (samples_of (grouping xs)) xs

-- The number of values of the type in which two samples are added: types narrower than `int` are
-- promoted to it, and its overflow is undefined.
abbrev pub sum_limit : ℕ → ℕ
sum_limit limit = if ltb limit (2 ^ 31) then 2 ^ 31 else limit

-- A sum, and whether it is of the type `C` of `wide` values.
abbrev pub Sum : Type 0
Sum = Bool × ℕ

-- The sum of two samples, or of sums of samples.
abbrev pub add_samples : ℕ → ℕ → ℕ → Exec Sum
add_samples limit a b =
    if ltb limit (2 ^ 31)
    then (if ltb (a + b) (2 ^ 31) then returns (false, a + b) else undefined)
    else returns (false, (a + b) % limit)

unfoldable pub add : ℕ → ℕ → Sum → Sum → Exec Sum
add limit wide (false, a) (false, b) = add_samples limit a b
add limit wide (false, a) (true, b) = returns (true, (a + b) % wide)
add limit wide (true, a) (false, b) = returns (true, (a + b) % wide)
add limit wide (true, a) (true, b) = returns (true, (a + b) % wide)

unfoldable pub sum_in : ℕ → ℕ → Grouping → Exec Sum
unfolding add
sum_in limit wide initial = returns (true, 0)
sum_in limit wide (sample v) = returns (false, v)
sum_in limit wide (plus a b) =
    sum_in limit wide a >>= λ x. sum_in limit wide b >>= λ y. add limit wide x y
sum_in limit wide (converted a) = sum_in limit wide a >>= λ x. returns (true, x.1 % wide)

-- The result is converted to `C`.
unfoldable pub reduce : ℕ → ℕ → Grouping → Exec ℕ
unfolding sum_in
reduce limit wide g = sum_in limit wide g >>= λ r. returns (r.1 % wide)

sum_of-append : (xs ys : List ℕ) → sum_of (xs ++ ys) ≡ sum_of xs + sum_of ys
sum_of-append [] ys = omega arith
sum_of-append (x ∷ xs) ys = omega (arith, sum_of-append xs ys)

sum_of-Permutes : {xs ys : List ℕ} → Permutes xs ys → sum_of xs ≡ sum_of ys
sum_of-Permutes same = refl
sum_of-Permutes (keep x p) = ap (λ (s : ℕ). x + s) (sum_of-Permutes p)
sum_of-Permutes (swap x y) = omega arith
sum_of-Permutes (next p q) = sum_of-Permutes p ∙ sum_of-Permutes q

add_samples-exact :
    (limit a b : ℕ) → a + b < sum_limit limit → add_samples limit a b ≡ returns (false, a + b)
add_samples-exact limit a b h = elim (Bool-cases (ltb limit (2 ^ 31))) [
  | inl promoted ↦
      let fits : ltb (a + b) (2 ^ 31) ≡ true = lt→ltb (a + b) (2 ^ 31) (rw promoted at h) in
      rw (promoted, fits) refl
  | inr own ↦ rw (own, mod-eq_of_lt (rw own at h)) refl
]

add_exact :
    (limit wide : ℕ) (p q : Bool) (a b : ℕ)
    → a + b < sum_limit limit
    → a + b < wide
    → (r : Bool) × (add limit wide (p, a) (q, b) ≡ returns (r, a + b))
unfolding add
add_exact limit wide false false a b h w = (false, add_samples-exact limit a b h)
add_exact limit wide false true a b h w = (true, rw (mod-eq_of_lt w) refl)
add_exact limit wide true false a b h w = (true, rw (mod-eq_of_lt w) refl)
add_exact limit wide true true a b h w = (true, rw (mod-eq_of_lt w) refl)

sum_in-exact :
    (limit wide : ℕ) (g : Grouping)
    → sum_of (samples_of g) < sum_limit limit
    → sum_of (samples_of g) < wide
    → (r : Bool) × (sum_in limit wide g ≡ returns (r, sum_of (samples_of g)))
unfolding sum_in
sum_in-exact limit wide initial h w = (true, refl)
sum_in-exact limit wide (sample v) h w = (false, ap (λ (t : ℕ). returns (false, t)) (omega arith))
sum_in-exact limit wide (plus a b) h w =
    let e = sum_of-append (samples_of a) (samples_of b) in
    let (p, x) = sum_in-exact limit wide a (omega (arith, e, h)) (omega (arith, e, w)) in
    let (q, y) = sum_in-exact limit wide b (omega (arith, e, h)) (omega (arith, e, w)) in
    let (r, z) =
      add_exact limit wide p q (sum_of (samples_of a)) (sum_of (samples_of b)) (omega (arith, e, h))
        (omega (arith, e, w)) in
    (r, rw (x, y, z, e) refl)
sum_in-exact limit wide (converted a) h w =
    let (p, x) = sum_in-exact limit wide a h w in (true, rw x (rw (mod-eq_of_lt w) refl))

-- Whatever the grouping, the sum is the true one when it fits the type in which two samples are added
-- and the type of the result.
pub reduce-exact :
    (limit wide : ℕ) (grouping : List ℕ → Grouping) (xs : List ℕ)
    → AddsAll grouping
    → sum_of xs < sum_limit limit
    → sum_of xs < wide
    → reduce limit wide (grouping xs) ≡ returns (sum_of xs)
unfolding reduce
reduce-exact limit wide grouping xs all h w =
    let e = sum_of-Permutes (all xs) in
    let (p, x) =
      sum_in-exact limit wide (grouping xs) (omega (arith, e, h)) (omega (arith, e, w)) in
    rw x (rw (e, mod-eq_of_lt w) refl)

-- ===== src/Bench/Sample/Average.antt =====
-- `Sample::avg` of include/shclog/bench/sample.hpp at an unsigned integer type `C` of `wide` values.
use shclog.Prelude.{
  ℕ, ◌/◌, ◌<◌, ◌≡◌, Bool, true, false, leb, ◌==◌, if◌then◌else◌, Option, none, some, List, length,
  take, refl, sym, ap, ◌∙◌, arith, lt→ltb,
}
use shclog.Io.Exec.{Exec, returns, undefined, ◌>>=◌}
use shclog.Io.Iouring.Ring.Requests.{int_cast}
use shclog.Bench.Sample.{Sample, push_all, span, empty_sample}
use shclog.Bench.Sample.Reduce.{Grouping, AddsAll, sum_limit, reduce, reduce-exact}
use shclog.Bench.Sample.Running.{Holds, sum_of}
use shclog.Bench.Sample.Totals.{push_all-Holds_new}

-- `none` is `AvgError::EmptySamples`; the division by a count that wraps to 0 is undefined. `grouping`
-- is how the library groups the additions of `std::reduce`.
unfoldable pub avg : (List ℕ → Grouping) → Bool → ℕ → ℕ → Sample → Exec (Option ℕ)
unfolding int_cast span reduce
avg grouping debug limit wide s =
    if s.count == 0
    then returns none
    else (int_cast debug wide s.count >>= λ n.
        (if s.sum.overflow
          then reduce limit wide (grouping (span s))
          else int_cast debug wide s.sum.value)
        >>= λ sum. (if n == 0 then undefined else returns (some (sum / n))))

int_cast_fits : (debug : Bool) (wide v : ℕ) → v < wide → int_cast debug wide v ≡ returns v
unfolding int_cast
int_cast_fits debug wide v h = rw (lt→ltb v wide h) refl

-- The sum of all values, whether the kept total overflowed or not.
dividend :
    (grouping : List ℕ → Grouping) (debug : Bool) (limit wide room : ℕ) (xs : List ℕ) (s : Sample)
    → AddsAll grouping
    → Holds limit room xs s
    → sum_of xs < sum_limit limit
    → sum_of xs < wide
    → (o : Bool) → s.sum.overflow ≡ o
    → (if o then reduce limit wide (grouping (span s)) else int_cast debug wide s.sum.value)
      ≡ returns (sum_of xs)
unfolding span
dividend grouping debug limit wide room xs s all (len, cnt, cont, lo, hi, (ov, e)) n h true o =
    ap (λ (ys : List ℕ). reduce limit wide (grouping ys)) cont
    ∙ reduce-exact limit wide grouping xs all n h
dividend grouping debug limit wide room xs s all (len, cnt, cont, lo, hi, (ov, e)) n h false o =
    int_cast_fits debug wide s.sum.value (omega arith)
    ∙ ap returns (let low : leb limit (sum_of xs) ≡ false = sym ov ∙ o in ground arith)

avg-Holds :
    (grouping : List ℕ → Grouping) (debug : Bool) (limit wide room : ℕ) (xs : List ℕ) (s : Sample)
    → AddsAll grouping
    → Holds limit room xs s
    → 0 < length xs
    → length xs < wide
    → sum_of xs < sum_limit limit
    → sum_of xs < wide
    → avg grouping debug limit wide s ≡ returns (some (sum_of xs / length xs))
unfolding avg
avg-Holds grouping debug limit wide room xs s all (len, cnt, cont, lo, hi, tot) some_value few own
      h =
    let counted : (s.count == 0) ≡ false = ground arith in
    rw
      (
        counted,
        int_cast_fits debug wide s.count (omega arith),
        dividend grouping debug limit wide room xs s all (len, cnt, cont, lo, hi, tot) own h
            s.sum.overflow refl,
        ◌>>=◌,
        counted,
      )
      (ap (λ (n : ℕ). returns (some (sum_of xs / n))) cnt)

-- After any pushes the average in a wider unsigned type is the sum of the values that came while the
-- buffer had room, divided by their number and rounded down, also when the kept total overflowed, and
-- however the library groups the additions. At least one value is there, their number and sum are in
-- the range of the wider type, and the sum is in the range of the type in which two samples are added:
-- `int` for types narrower than it, else their own.
pub avg_floor :
    (grouping : List ℕ → Grouping) (debug : Bool) (limit wide : ℕ) (buffer vs : List ℕ)
    → AddsAll grouping
    → 0 < limit
    → 0 < length (take (length buffer) vs)
    → length (take (length buffer) vs) < wide
    → sum_of (take (length buffer) vs) < sum_limit limit
    → sum_of (take (length buffer) vs) < wide
    → avg grouping debug limit wide (push_all limit (empty_sample limit buffer) vs)
      ≡ returns (some (sum_of (take (length buffer) vs) / length (take (length buffer) vs)))
avg_floor grouping debug limit wide buffer vs all p some_value few own h =
    avg-Holds grouping debug limit wide (length buffer) (take (length buffer) vs)
      (push_all limit (empty_sample limit buffer) vs) all (push_all-Holds_new limit buffer vs p)
      some_value few own h

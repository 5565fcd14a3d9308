-- ===== src/Mpsc/Bounded/Threads/Counts.antt =====
-- The counters through each access.
use shclog.Prelude.{ℕ, ◌+◌, ◌^◌, ◌≤◌, ◌<◌, ◌≡◌, arith, bit_and, List, Option}
use native.Mathlib.Nat.{one-le-pow, pow-le-pow_right}
use shclog.Mpsc.Bounded.{Queue, add_usize, sub_usize}
use shclog.Mpsc.Bounded.Window.{next_tail}
use shclog.Mpsc.Bounded.Threads.{
  Call, checking, ticketing, Consumer, ready, releasing, assign, produce,
}
use shclog.Mpsc.Bounded.Threads.Tally.{claims, excess, tally, tally-assign, tally-sum_le}
use shclog.Mpsc.Bounded.Threads.Inv.{Counts}

pub capacity_bounds : (k : ℕ) → k ≤ 63 → (1 ≤ 2 ^ k) × (2 ^ k ≤ 2 ^ 63)
capacity_bounds k h = (one-le-pow k 2 (omega arith), pow-le-pow_right {n = 2} (omega arith) h)

-- how many tickets the next access gives out
abbrev pub gives : Call → ℕ
gives (ticketing _) = 1
gives _ = 0

module _ {k n : ℕ} {q : Queue} {calls : ℕ → Call} {c : Consumer} {from to : ℕ}
    (s : Counts k n q calls c from to) where
  module _ (i : ℕ) (l : i < n) where
    -- An access of a producer that stands at `p`.
    pub Counts-produce :
        (p : Call)
        → calls i ≡ p
        → Counts k n (produce q p).0 (assign calls i (produce q p).1) c from (to + gives p)
    unfolding produce
    Counts-produce p at = record {
      small = s.small;
      few = s.few;
      max = ground (arith, s.max);
      mask = ground (arith, s.mask);
      head = ground (arith, s.head);
      tail = ground (arith, s.tail);
      order = omega (arith, s.order);
      room = ground (arith, s.room, s.count, s.max, moved claims);
      count = ground (
        arith,
        s.room,
        s.count,
        s.max,
        s.few,
        s.order,
        moved claims,
        moved excess,
        tally-sum_le n calls,
        tally-sum_le n (assign calls i (produce q p).1),
        capacity_bounds k s.small,
      );
    }
      where
        moved :
            (w : Call → ℕ)
            → tally w n (assign calls i (produce q p).1) + w (calls i)
              ≡ tally w n calls + w (produce q p).1
        moved w = tally-assign w n calls i (produce q p).1 l

    -- A call of `enqueue` begins.
    pub Counts-invoke :
        (v : ℕ)
        → claims (calls i) ≡ 0
        → excess (calls i) ≡ 0
        → Counts k n q (assign calls i (checking v)) c from to
    Counts-invoke v nc ne = record {
      small = s.small;
      few = s.few;
      max = s.max;
      mask = s.mask;
      head = s.head;
      tail = s.tail;
      order = s.order;
      room = omega (arith, s.room, nc, tally-assign claims n calls i (checking v) l);
      count = omega (
        arith,
        s.count,
        nc,
        ne,
        tally-assign claims n calls i (checking v) l,
        tally-assign excess n calls i (checking v) l,
      );
    }

-- The exchange that takes an item out.
pub Counts-take :
    {k n : ℕ} {q : Queue} {calls : ℕ → Call} {from to : ℕ} (b : List (Option ℕ)) (v : ℕ)
    → Counts k n q calls ready from to
    → from < to
    → Counts k n
        (record q { buffer = b; tail = bit_and (add_usize q.tail 1) q.buf_mask })
        calls
        (releasing v)
        (from + 1)
        to
Counts-take {k} {from = from} b v s l = record {
  small = s.small;
  few = s.few;
  max = s.max;
  mask = s.mask;
  head = s.head;
  tail = rw (s.tail, s.mask) (next_tail k from s.small);
  order = omega arith;
  room = omega (arith, s.room);
  count = omega (arith, s.count);
}

-- The decrement that follows it.
pub Counts-release :
    {k n : ℕ} {q : Queue} {calls : ℕ → Call} {v from to : ℕ}
    → Counts k n q calls (releasing v) from to
    → Counts k n (record q { count = sub_usize q.count 1 }) calls ready from to
Counts-release {k} {n} {calls = calls} s = record {
  small = s.small;
  few = s.few;
  max = s.max;
  mask = s.mask;
  head = s.head;
  tail = s.tail;
  order = s.order;
  room = omega (arith, s.room);
  count =
      omega
        (arith, s.count, s.room, s.order, s.few, tally-sum_le n calls, capacity_bounds k s.small);
}

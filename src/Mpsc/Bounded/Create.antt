-- ===== src/Mpsc/Bounded/Create.antt =====
-- What `create` accepts, and the queue that it makes.
use shclog.Prelude.{
  ℕ, zero, suc, ◌-◌, ◌^◌, ◌≤◌, ◌≡◌, Bool, ◌&&◌, bit_and, if◌then◌else◌, arith,
  IsPow_of_bit_and_pred, pow-bit_and_pred,
}
use native.Mathlib.Nat.{one-le-pow, pow-succ'}
use shclog.Mpsc.Bounded.{Queue, queue, refused, allocation_failed, create, empty_queue}

record Accepted (c : ℕ) (made : Queue) : Type 0 where
  large : 2 ≤ c
  tested : bit_and c (c - 1) ≡ 0
  fresh : made ≡ empty_queue c

accepted : (b q : Bool) (c : ℕ) {made : Queue} → create b q c ≡ queue made → Accepted c made
unfolding create
accepted b q c h = ground arith

-- `create` returns a queue only for a capacity 2^k with 1 ≤ k, and the queue is the empty one of
-- that capacity.
pub create-IsPow :
    (b q : Bool) (c : ℕ) {made : Queue}
    → create b q c ≡ queue made
    → (k : ℕ) × (1 ≤ k) × (c ≡ 2 ^ k) × (made ≡ empty_queue c)
create-IsPow b q c h =
    let r = accepted b q c h in
    let (k, e) = IsPow_of_bit_and_pred c (omega arith) r.tested in
    (k, positive k e r.large, e, r.fresh)
  where
    positive : (k : ℕ) → c ≡ 2 ^ k → 2 ≤ c → 1 ≤ k
    positive zero e h = absurd (omega arith)
    positive (suc k) e h = omega arith

-- For a capacity 2^k with 1 ≤ k, `create` returns the empty queue if both allocations succeed, and
-- AllocationFailed otherwise.
create_pow :
    (b q : Bool) (k : ℕ)
    → 1 ≤ k
    → create b q (2 ^ k)
      ≡ (if b && q then queue (empty_queue (2 ^ k)) else refused allocation_failed)
unfolding create
create_pow b q zero h = absurd (omega arith)
create_pow b q (suc k) h =
    ground (arith, pow-bit_and_pred (suc k), pow-succ' 2 k, one-le-pow k 2 (omega arith))

-- ===== src/Mpsc/Slotted.antt =====
-- `MPSCQSlotted` of include/shclog/mpsc_queue.hpp with N = 2^k cells: every access of `enqueue` and
-- `dequeue` to a cell or to `head` is a step of its own, the two plain accesses to a cell's pointer
-- included. The steps of all threads form one order.
pub mod Inv
pub mod Moves
pub mod Marked
pub mod Writes
pub mod Consume
pub mod Runs
pub mod Consumed
pub mod Steps
pub mod Safety
mod Examples
use shclog.Prelude.{
  ℕ, ◌+◌, ◌-◌, ◌%◌, ◌^◌, ◌≡◌, bit_and, Bool, true, false, ltb, ◌==◌, if◌then◌else◌, Option, none,
  some, List, [], ◌∷◌, ◌++◌,
}
use shclog.Mpsc.Bounded.{add_usize}

-- `data` is the item's pointer, null at first.
pub record Cell : Type 0 where
  pub seq : ℕ
  pub item : Option ℕ

-- `buffer` is read and written below N only.
pub record Queue : Type 0 where
  pub tail : ℕ
  pub head : ℕ
  pub buffer : ℕ → Cell

-- `MPSCQSlotted()`
abbrev pub empty_queue : Queue
empty_queue = record { tail = 0; head = 0; buffer = λ i. record { seq = i; item = none } }

abbrev pub put : (ℕ → Cell) → ℕ → Cell → ℕ → Cell
put b i c j = if i == j then c else b j

-- The sign of `static_cast<isize>(a) - static_cast<isize>(b)`, where that does not overflow.
abbrev pub lt_isize : ℕ → ℕ → Bool
lt_isize a b = ltb ((a + 2 ^ 63) % 2 ^ 64) ((b + 2 ^ 63) % 2 ^ 64)

-- Where a producer stands in `enqueue`, with the locals that are live there.
pub data Call : Type 0 where
  idle : Call
  taking : (v : ℕ) → Call  -- before `head.fetch_add`
  spinning : (pos v : ℕ) → Call  -- before `slot->seq.load`
  filling : (pos v : ℕ) → Call  -- before the write of `slot->data`
  marking : (pos v : ℕ) → Call  -- before `slot->seq.store`
  returned : Call

-- Where the consumer stands in `dequeue`.
pub data Consumer : Type 0 where
  ready : Consumer
  reading : Consumer  -- before the read of `slot->data`
  freeing : (v : Option ℕ) → Consumer  -- before `slot->seq.store`

module _ (k : ℕ) where
  -- `pos & MASK`
  abbrev pub index : ℕ → ℕ
  index pos = bit_and pos (2 ^ k - 1)

  -- The next access of a producer.
  unfoldable pub produce : Queue → Call → Queue × Call
  produce q (taking v) = (record q { head = add_usize q.head 1 }, spinning q.head v)
  produce q (spinning pos v) =
      (q, if (q.buffer (index pos)).seq == pos then filling pos v else spinning pos v)
  produce q (filling pos v) = (
    record q {
      buffer = put q.buffer (index pos) (record (q.buffer (index pos)) { item = some v });
    },
    marking pos v,
  )
  produce q (marking pos v) = (
    record q {
      buffer = put q.buffer (index pos) (record (q.buffer (index pos)) { seq = add_usize pos 1 });
    },
    returned,
  )
  produce q call = (q, call)

  -- The next access of the consumer; `tail` is its own, and is moved with the last one.
  unfoldable pub consume : Queue → Consumer → Queue × Consumer
  consume q ready =
      (q, if lt_isize (q.buffer (index q.tail)).seq (add_usize q.tail 1) then ready else reading)
  consume q reading = (q, freeing (q.buffer (index q.tail)).item)
  consume q (freeing v) = (
    record q {
      buffer =
          put q.buffer (index q.tail)
            (record (q.buffer (index q.tail)) { seq = add_usize q.tail (2 ^ k) });
      tail = add_usize q.tail 1;
    },
    ready,
  )

-- `tickets` and `given` are a history that no step reads: the items in the order in which their
-- producers took a ticket, and the items that the consumer returned, oldest first.
pub record System : Type 0 where
  pub queue : Queue
  pub calls : ℕ → Call
  pub consumer : Consumer
  pub tickets : List ℕ
  pub given : List ℕ

abbrev pub assign : (ℕ → Call) → ℕ → Call → ℕ → Call
assign calls i c j = if i == j then c else calls j

-- the item that the next access of the call gives a ticket to
abbrev pub ticketed : Call → List ℕ
ticketed (taking v) = v ∷ []
ticketed _ = []

-- the item that the next access of the consumer returns
abbrev pub given_out : Consumer → List ℕ
given_out (freeing (some v)) = v ∷ []
given_out _ = []

abbrev pub at_rest : Call → Bool
at_rest idle = true
at_rest returned = true
at_rest _ = false

abbrev pub invoke_at : System → ℕ → ℕ → System
invoke_at s i v = record s { calls = assign s.calls i (taking v) }

module _ (k : ℕ) where
  abbrev pub produce_at : System → ℕ → System
  produce_at s i =
      let (q, c) = produce k s.queue (s.calls i) in
      record s {
        queue = q;
        calls = assign s.calls i c;
        tickets = s.tickets ++ ticketed (s.calls i);
      }

  abbrev pub consume_at : System → System
  consume_at s =
      let (q, c) = consume k s.queue s.consumer in
      record s { queue = q; consumer = c; given = s.given ++ given_out s.consumer }

  -- Any number of producers and one consumer. A producer at rest may call `enqueue` with any item.
  pub data Step (s : System) : System → Type 0 where
    invoke : (i v : ℕ) → at_rest (s.calls i) ≡ true → Step s (invoke_at s i v)
    move : (i : ℕ) → Step s (produce_at s i)
    take : Step s (consume_at s)

  abbrev pub start : System
  start = record {
    queue = empty_queue;
    calls = λ _. idle;
    consumer = ready;
    tickets = [];
    given = [];
  }

  pub data Reach : System → Type 0 where
    begin : Reach start
    next : {s t : System} → Reach s → Step s t → Reach t

-- ===== src/Mpsc/Bounded/Threads.antt =====
-- Producers and the consumer of an `MPSCQueue` interleaved: every atomic access of `enqueue` and
-- `dequeue` is a step of its own. The steps of all threads form one order (sequential consistency):
-- the release and acquire marks are not modelled, and a thread never sees a stale value.
pub mod Tally
pub mod Inv
pub mod Cells
pub mod Oldest
pub mod Counts
pub mod Steps
pub mod Safety
pub mod Alone
use shclog.Prelude.{
  ℕ, ◌+◌, ◌<◌, ◌≡◌, bit_and, Bool, true, false, leb, ◌==◌, if◌then◌else◌, Option, none, some, List,
  [], ◌∷◌, ◌++◌, set, get_or,
}
use shclog.Mpsc.Bounded.{Queue, add_usize, sub_usize, slot_of, store, empty_queue}

-- Where a producer stands in `enqueue`, with the locals that are live there. The check for a null
-- pointer touches nothing shared: `enqueue(nullptr)` returns false at once, and is no step.
pub data Call : Type 0 where
  idle : Call
  checking : (v : ℕ) → Call  -- before `count.load`
  claiming : (v : ℕ) → Call  -- before `count.fetch_add`
  backing_off : Call  -- before `count.fetch_sub` of a claim beyond `max`
  ticketing : (v : ℕ) → Call  -- before `head.fetch_add`
  storing : (h v : ℕ) → Call  -- before the store to `buffer[h & buf_mask]`
  returned : (result : Bool) → Call

-- Where the consumer stands in `dequeue`; `tail` is its own, and is moved with the exchange.
pub data Consumer : Type 0 where
  ready : Consumer
  releasing : (v : ℕ) → Consumer  -- before `count.fetch_sub`

-- The next access of a producer.
unfoldable pub produce : Queue → Call → Queue × Call
produce q (checking v) = (q, if leb q.max q.count then returned false else claiming v)
produce q (claiming v) = (
  record q { count = add_usize q.count 1 },
  if leb q.max q.count then backing_off else ticketing v,
)
produce q backing_off = (record q { count = sub_usize q.count 1 }, returned false)
produce q (ticketing v) = (record q { head = add_usize q.head 1 }, storing q.head v)
produce q (storing h v) = (store q h v, returned true)
produce q call = (q, call)

-- What the exchange at the tail found.
unfoldable pub exchanged : Queue → Option ℕ → Queue × Consumer
exchanged q none = (q, ready)
exchanged q (some v) = (
  record q { buffer = set q.buffer q.tail none; tail = bit_and (add_usize q.tail 1) q.buf_mask },
  releasing v,
)

-- The next access of the consumer.
unfoldable pub consume : Queue → Consumer → Queue × Consumer
unfolding exchanged
consume q ready = exchanged q (get_or q.buffer q.tail none)
consume q (releasing v) = (record q { count = sub_usize q.count 1 }, ready)

-- `tickets` and `given` are a history that no step reads: the items in the order in which their
-- producers took a ticket, and the items that the consumer took out, oldest first.
pub record System : Type 0 where
  pub queue : Queue
  pub calls : ℕ → Call
  pub consumer : Consumer
  pub tickets : List ℕ
  pub given : List ℕ

abbrev pub assign : (ℕ → Call) → ℕ → Call → ℕ → Call
assign calls i c j = if i == j then c else calls j

-- the item that the next access of the call gives a ticket to
abbrev pub ticketed : Call → List ℕ
ticketed (ticketing v) = v ∷ []
ticketed _ = []

-- the item that the consumer has just taken out
abbrev pub taken_out : Consumer → Consumer → List ℕ
taken_out ready (releasing v) = v ∷ []
taken_out _ _ = []

abbrev pub at_rest : Call → Bool
at_rest idle = true
at_rest (returned _) = true
at_rest _ = false

abbrev pub invoke_at : System → ℕ → ℕ → System
invoke_at s i v = record s { calls = assign s.calls i (checking v) }

abbrev pub produce_at : System → ℕ → System
produce_at s i =
    let (q, c) = produce s.queue (s.calls i) in
    record s { queue = q; calls = assign s.calls i c; tickets = s.tickets ++ ticketed (s.calls i) }

abbrev pub consume_at : System → System
consume_at s =
    let (q, c) = consume s.queue s.consumer in
    record s { queue = q; consumer = c; given = s.given ++ taken_out s.consumer c }

-- `n` producers and one consumer. A producer at rest may call `enqueue` with any item.
pub data Step (n : ℕ) (s : System) : System → Type 0 where
  invoke : (i v : ℕ) → i < n → at_rest (s.calls i) ≡ true → Step n s (invoke_at s i v)
  move : (i : ℕ) → i < n → Step n s (produce_at s i)
  take : Step n s (consume_at s)

abbrev pub start : ℕ → System
start capacity = record {
  queue = empty_queue capacity;
  calls = λ _. idle;
  consumer = ready;
  tickets = [];
  given = [];
}

pub data Reach (n capacity : ℕ) : System → Type 0 where
  begin : Reach n capacity (start capacity)
  next : {s t : System} → Reach n capacity s → Step n s t → Reach n capacity t

-- ===== src/Mpsc/Linked.antt =====
-- `UnboundedLinkedMPSCQ` of include/shclog/mpsc_queue.hpp over a heap of nodes: every access of
-- `push` and `pop` to a `next` pointer or to `head` is a step of its own. The steps of all threads
-- form one order. A node is a number and stands for its item (`container_of`); the stub is 0.
pub mod Chain
pub mod Exchanged
pub mod Pushes
pub mod Tails
pub mod Links
pub mod Gives
pub mod Pops
pub mod Runs
pub mod Steps
pub mod Safety
pub mod Alone
pub mod Drain
mod Examples
use shclog.Prelude.{
  ℕ, zero, suc, ◌≡◌, Bool, true, false, not, ◌==◌, if◌then◌else◌, Option, none, some, List, [], ◌∷◌,
  ◌++◌,
}

-- `next` is the field of every node; `tail` is the consumer's own.
pub record Queue : Type 0 where
  pub head : ℕ
  pub tail : ℕ
  pub next : ℕ → Option ℕ

-- `UnboundedLinkedMPSCQ()`
abbrev pub empty_queue : Queue
empty_queue = record { head = 0; tail = 0; next = λ _. none }

abbrev pub store_next : Queue → ℕ → Option ℕ → Queue
store_next q n x = record q { next = λ m. if n == m then x else q.next m }

-- Where a thread stands in `push`; `done` before and after.
pub data Push : Type 0 where
  done : Push
  clearing : (n : ℕ) → Push  -- before `n->next = nullptr`
  exchanging : (n : ℕ) → Push  -- before `head.exchange(n)`
  linking : (prev n : ℕ) → Push  -- before `prev->next.store(n)`

-- The next access of a push.
unfoldable pub push : Queue → Push → Queue × Push
push q done = (q, done)
push q (clearing n) = (store_next q n none, exchanging n)
push q (exchanging n) = (record q { head = n }, linking q.head n)
push q (linking prev n) = (store_next q prev (some n), done)

-- Where the consumer stands in `pop`, with `local_tail`.
pub data Consumer : Type 0 where
  ready : Consumer  -- before the first load of `local_tail->next`
  past_stub : (local_tail : ℕ) → Consumer  -- before that of the node behind the stub
  comparing : (local_tail : ℕ) → Consumer  -- before `head.load`
  pushing : (local_tail : ℕ) → Push → Consumer  -- in `push(&stub)`
  rechecking : (local_tail : ℕ) → Consumer  -- before the last load of `local_tail->next`

pub data Answer : Type 0 where
  pending : Answer
  null : Answer
  node : ℕ → Answer

-- `if (next) { tail = next; return local_tail; }`, and what comes after it.
unfoldable pub take_tail : Queue → ℕ → Option ℕ → Consumer → Answer → Queue × Consumer × Answer
take_tail q local_tail (some n) c a = (record q { tail = n }, ready, node local_tail)
take_tail q local_tail none c a = (q, c, a)

-- The stub is the tail: without a next node the queue is empty.
unfoldable pub skip_stub : Queue → Option ℕ → Queue × Consumer × Answer
skip_stub q none = (q, ready, null)
skip_stub q (some n) = (record q { tail = n }, past_stub n, pending)

unfoldable pub after_push : ℕ → Push → Consumer
after_push local_tail done = rechecking local_tail
after_push local_tail p = pushing local_tail p

-- The next access of the consumer.
unfoldable pub pop : Queue → Consumer → Queue × Consumer × Answer
unfolding take_tail skip_stub after_push push
pop q ready =
    if q.tail == 0
    then skip_stub q (q.next q.tail)
    else take_tail q q.tail (q.next q.tail) (comparing q.tail) pending
pop q (past_stub t) = take_tail q t (q.next t) (comparing t) pending
pop q (comparing t) = (
  q,
  if t == q.head then pushing t (clearing 0) else ready,
  if t == q.head then pending else null,
)
pop q (pushing t p) = let (q', p') = push q p in (q', after_push t p', pending)
pop q (rechecking t) = take_tail q t (q.next t) ready null

-- `exchanged` and `given` are a history that no step reads: the nodes that `head` has held, the stub
-- first, and the nodes that `pop` returned. `owned` tells the nodes that callers hold by a
-- `unique_ptr`: `enqueue` takes one from its caller and `dequeue` returns one.
pub record System : Type 0 where
  pub queue : Queue
  pub calls : ℕ → Push
  pub consumer : Consumer
  pub exchanged : List ℕ
  pub given : List ℕ
  pub owned : ℕ → Bool

abbrev pub assign : (ℕ → Push) → ℕ → Push → ℕ → Push
assign calls i p j = if i == j then p else calls j

abbrev pub set_owned : (ℕ → Bool) → ℕ → Bool → ℕ → Bool
set_owned owned n x m = if n == m then x else owned m

-- the node that the next access of the push puts into `head`
abbrev pub exchanged_by : Push → List ℕ
exchanged_by (exchanging n) = n ∷ []
exchanged_by _ = []

abbrev pub push_of : Consumer → Push
push_of (pushing t p) = p
push_of _ = done

abbrev pub given_by : Answer → List ℕ
given_by (node n) = n ∷ []
given_by _ = []

abbrev pub owned_after : (ℕ → Bool) → Answer → ℕ → Bool
owned_after owned (node n) = set_owned owned n true
owned_after owned _ = owned

abbrev pub invoke_at : System → ℕ → ℕ → System
invoke_at s i n = record s {
  calls = assign s.calls i (clearing n);
  owned = set_owned s.owned n false;
}

abbrev pub push_at : System → ℕ → System
push_at s i =
    let (q, p) = push s.queue (s.calls i) in
    record s {
      queue = q;
      calls = assign s.calls i p;
      exchanged = s.exchanged ++ exchanged_by (s.calls i);
    }

abbrev pub pop_at : System → System
pop_at s =
    let (q, c, a) = pop s.queue s.consumer in
    record s {
      queue = q;
      consumer = c;
      exchanged = s.exchanged ++ exchanged_by (push_of s.consumer);
      given = s.given ++ given_by a;
      owned = owned_after s.owned a;
    }

-- A thread that is in no call may enqueue a node that callers own.
pub data Step (s : System) : System → Type 0 where
  invoke : (i n : ℕ) → s.calls i ≡ done → s.owned n ≡ true → Step s (invoke_at s i n)
  move : (i : ℕ) → Step s (push_at s i)
  take : Step s (pop_at s)

-- At the start callers own every node but the stub.
abbrev pub start : System
start = record {
  queue = empty_queue;
  calls = λ _. done;
  consumer = ready;
  exchanged = 0 ∷ [];
  given = [];
  owned = λ n. not (n == 0);
}

pub data Reach : System → Type 0 where
  begin : Reach start
  next : {s t : System} → Reach s → Step s t → Reach t

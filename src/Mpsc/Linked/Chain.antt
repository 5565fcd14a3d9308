-- ===== src/Mpsc/Linked/Chain.antt =====
-- What holds of the nodes between any two accesses. The nodes that `head` has held have positions;
-- the queue holds those from the position of `tail` on.
use shclog.Prelude.{
  ℕ, zero, suc, ◌≤◌, ◌<◌, ◌≡◌, ◌≢◌, ◌⊎◌, Bool, true, Option, none, some, List, [], ◌∷◌, length,
  get_or, take, ◌==◌, if◌then◌else◌,
}
use shclog.Mpsc.Linked.{
  Push, done, clearing, exchanging, linking, Consumer, ready, past_stub, comparing, pushing,
  rechecking, push_of, System,
}

abbrev pub node_at : List ℕ → ℕ → ℕ
node_at nodes p = get_or nodes p 0

-- The node that a push brings in, before it is in the queue.
abbrev pub brings : Push → Option ℕ
brings (clearing n) = some n
brings (exchanging n) = some n
brings p = none

-- The node whose `next` a push will set.
abbrev pub links : Push → Option ℕ
links (linking prev n) = some prev
links p = none

-- The node is not in the queue.
abbrev pub Outside : List ℕ → ℕ → ℕ → Type 0
Outside nodes from n = (p : ℕ) → from ≤ p → p < length nodes → node_at nodes p ≢ n

abbrev pub Knows : List ℕ → ℕ → (ℕ → Option ℕ) → Push → Type 0
Knows nodes from next done = Unit {0}
Knows nodes from next (clearing n) = Outside nodes from n
Knows nodes from next (exchanging n) = Outside nodes from n × (next n ≡ none)
Knows nodes from next (linking prev n) =
    (p : ℕ) × (from ≤ p)
    × (suc p < length nodes)
    × (prev ≡ node_at nodes p)
    × (n ≡ node_at nodes (suc p))
    × (next prev ≡ none)

-- Two neighbours are linked, or a push will link them.
abbrev pub Linked : List ℕ → (ℕ → Option ℕ) → (ℕ → Push) → ℕ → Type 0
Linked nodes next pushes p =
    (next (node_at nodes p) ≡ some (node_at nodes (suc p)))
    ⊎ ((next (node_at nodes p) ≡ none)
        × ((w : ℕ) × (pushes w ≡ linking (node_at nodes p) (node_at nodes (suc p)))))

-- `pushes` are those of all threads, `pushes 0` that of the consumer.
pub record Chain (next : ℕ → Option ℕ) (pushes : ℕ → Push) (nodes : List ℕ) (owned : ℕ → Bool)
    (from : ℕ) : Type 0 where
  pub some_node : from < length nodes
  pub distinct :
      (p q : ℕ)
      → from ≤ p
      → p < length nodes
      → from ≤ q
      → q < length nodes
      → node_at nodes p ≡ node_at nodes q
      → p ≡ q
  pub linked : (p : ℕ) → from ≤ p → suc p < length nodes → Linked nodes next pushes p
  pub last : (p : ℕ) → suc p ≡ length nodes → next (node_at nodes p) ≡ none
  pub knows : (w : ℕ) → Knows nodes from next (pushes w)
  pub one_bringer : (w v n : ℕ) → brings (pushes w) ≡ some n → brings (pushes v) ≡ some n → w ≡ v
  pub one_linker : (w v n : ℕ) → links (pushes w) ≡ some n → links (pushes v) ≡ some n → w ≡ v
  pub stub_bringer : (w : ℕ) → brings (pushes w) ≡ some 0 → w ≡ 0
  pub outside : (n : ℕ) → owned n ≡ true → Outside nodes from n
  pub not_stub : (n : ℕ) → owned n ≡ true → n ≢ 0
  pub not_brought : (n w : ℕ) → owned n ≡ true → brings (pushes w) ≢ some n

-- `local_tail` is the tail and holds an item.
abbrev pub IsTail : List ℕ → ℕ → ℕ → Type 0
IsTail nodes from t = (t ≡ node_at nodes from) × (t ≢ 0)

abbrev pub ConsumerKnows : List ℕ → ℕ → Consumer → Type 0
ConsumerKnows nodes from ready = Unit {0}
ConsumerKnows nodes from (past_stub t) = IsTail nodes from t
ConsumerKnows nodes from (comparing t) = IsTail nodes from t
ConsumerKnows nodes from (pushing t p) = IsTail nodes from t
ConsumerKnows nodes from (rechecking t) = IsTail nodes from t

-- The pushes of all threads.
abbrev pub pushes_of : (ℕ → Push) → Consumer → ℕ → Push
pushes_of calls c zero = push_of c
pushes_of calls c (suc i) = calls i

-- The nodes that hold items.
abbrev pub items : List ℕ → List ℕ
items [] = []
items (n ∷ ns) = if n == 0 then items ns else n ∷ items ns

pub record Inv (s : System) : Type 0 where
  pub from : ℕ
  pub head : (p : ℕ) → suc p ≡ length s.exchanged → s.queue.head ≡ node_at s.exchanged p
  pub tail : s.queue.tail ≡ node_at s.exchanged from
  pub chain : Chain s.queue.next (pushes_of s.calls s.consumer) s.exchanged s.owned from
  pub consumer : ConsumerKnows s.exchanged from s.consumer
  pub fifo : s.given ≡ items (take from s.exchanged)

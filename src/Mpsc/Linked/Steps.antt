-- ===== src/Mpsc/Linked/Steps.antt =====
-- The steps of the producers keep the invariant.
use shclog.Prelude.{
  ℕ, zero, suc, ◌-◌, ◌<◌, ◌≡◌, ◌≢◌, sym, ◌∙◌, ap, refl, subst, Bool, true, false, Option, List, [],
  ◌∷◌, ◌++◌, length, take-append_le, length-append, get_or-append_lt, get_or-append_at, arith,
  ℕ_discrete,
}
use mathlib.Core.List.{append-nil}
use mathlib.Core.Path.{fun_ext}
use shclog.Mpsc.Linked.{
  Queue, Push, done, clearing, exchanging, linking, push, Consumer, ready, past_stub, comparing,
  pushing, rechecking, exchanged_by, System, assign, set_owned, invoke_at, push_at,
}
use shclog.Mpsc.Linked.Chain.{node_at, Chain, ConsumerKnows, pushes_of, items, Inv}
use shclog.Mpsc.Linked.Pushes.{Chain-cleared}
use shclog.Mpsc.Linked.Pushes.{Changed}
use shclog.Mpsc.Linked.Exchanged.{Chain-exchanged}
use shclog.Mpsc.Linked.Links.{Chain-linked}
use shclog.Mpsc.Linked.Tails.{Chain-begun}

-- What an access of a push leaves.
pub record Pushed (q : Queue) (pushes : ℕ → Push) (nodes : List ℕ) (owned : ℕ → Bool) (from : ℕ)
    : Type 0 where
  pub chain : Chain q.next pushes nodes owned from
  pub head : (p : ℕ) → suc p ≡ length nodes → q.head ≡ node_at nodes p

module _ {q : Queue} {old new : ℕ → Push} {nodes : List ℕ} {owned : ℕ → Bool} {from : ℕ}
    (s : Pushed q old nodes owned from) (w : ℕ) where
  -- The access enters nothing into `head`.
  same_nodes :
      (next : ℕ → Option ℕ)
      → Chain next new nodes owned from
      → Pushed (record q { next = next }) new (nodes ++ []) owned from
  same_nodes next c =
      subst (λ (ns : List ℕ). Pushed (record q { next = next }) new ns owned from)
        (sym (append-nil nodes)) (record { chain = c; head = s.head })

  unmoved : old w ≡ done → Changed old new w done → Chain q.next new nodes owned from
  unmoved at c = subst (λ (ps : ℕ → Push). Chain q.next ps nodes owned from) (fun_ext same) s.chain
    where
      same : (v : ℕ) → old v ≡ new v
      same v = elim (ℕ_discrete w v) [
        | yes e ↦ ap old (sym e) ∙ at ∙ sym c.here ∙ ap new e
        | no ne ↦ sym (c.others v ne)
      ]

  pub push-Pushed :
      (p : Push)
      → old w ≡ p
      → Changed old new w ((push q p).1)
      → Pushed ((push q p).0) new (nodes ++ exchanged_by p) owned from
  unfolding push
  push-Pushed done at c = same_nodes q.next (unmoved at c)
  push-Pushed (clearing n) at c = same_nodes _ (Chain-cleared s.chain w n at c)
  push-Pushed (linking prev n) at c = same_nodes _ (Chain-linked s.chain w prev n at c)
  push-Pushed (exchanging n) at c = record {
    chain =
        Chain-exchanged s.chain w n (length nodes - 1) q.head at end (s.head (length nodes - 1) end)
          c;
    head =
        λ p e. sym (get_or-append_at nodes n 0 [] p (omega (arith, length-append nodes (n ∷ []))));
  }
    where
      end : suc (length nodes - 1) ≡ length nodes
      end = omega (arith, s.chain.some_node)

-- What the consumer knows does not change when `head` takes another node.
ConsumerKnows-longer :
    (nodes more : List ℕ) (from : ℕ) (c : Consumer)
    → from < length nodes
    → ConsumerKnows nodes from c
    → ConsumerKnows (nodes ++ more) from c
ConsumerKnows-longer nodes more from ready l k = tt
ConsumerKnows-longer nodes more from (past_stub t) l (e, z) =
    (e ∙ sym (get_or-append_lt nodes more from 0 l), z)
ConsumerKnows-longer nodes more from (comparing t) l (e, z) =
    (e ∙ sym (get_or-append_lt nodes more from 0 l), z)
ConsumerKnows-longer nodes more from (pushing t p) l (e, z) =
    (e ∙ sym (get_or-append_lt nodes more from 0 l), z)
ConsumerKnows-longer nodes more from (rechecking t) l (e, z) =
    (e ∙ sym (get_or-append_lt nodes more from 0 l), z)

pub assign_self : (calls : ℕ → Push) (i : ℕ) (p : Push) → assign calls i p i ≡ p
assign_self calls i p = ground arith

pub assign_other : (calls : ℕ → Push) (i j : ℕ) (p : Push) → i ≢ j → assign calls i p j ≡ calls j
assign_other calls i j p ne = ground arith

producer-Changed :
    (calls : ℕ → Push) (c : Consumer) (i : ℕ) (p : Push)
    → Changed (pushes_of calls c) (pushes_of (assign calls i p) c) (suc i) p
producer-Changed calls c i p = record { here = assign_self calls i p; others = others }
  where
    others : (v : ℕ) → suc i ≢ v → pushes_of (assign calls i p) c v ≡ pushes_of calls c v
    others zero ne = refl
    others (suc j) ne = assign_other calls i j p (λ e. ne (ap suc e))

-- The invariant, from the nodes after an access of a push that leaves the tail and the history of
-- returned nodes.
pub pushed-Inv :
    (s : System) (inv : Inv s) (q : Queue) (calls : ℕ → Push) (c : Consumer) (more : List ℕ)
    → Pushed q (pushes_of calls c) (s.exchanged ++ more) s.owned inv.from
    → q.tail ≡ s.queue.tail
    → ConsumerKnows s.exchanged inv.from c
    → Inv (record s { queue = q; calls = calls; consumer = c; exchanged = s.exchanged ++ more })
pushed-Inv s inv q calls c more now same k = record {
  from = inv.from;
  head = now.head;
  tail = same ∙ inv.tail ∙ sym (get_or-append_lt s.exchanged more inv.from 0 inv.chain.some_node);
  chain = now.chain;
  consumer = ConsumerKnows-longer s.exchanged more inv.from c inv.chain.some_node k;
  fifo =
      inv.fifo
      ∙ ap items
          (sym (take-append_le inv.from s.exchanged more (omega (arith, inv.chain.some_node))));
}

-- A push never moves the tail.
pub push-tail : (q : Queue) (p : Push) → ((push q p).0).tail ≡ q.tail
unfolding push
push-tail q done = refl
push-tail q (clearing n) = refl
push-tail q (exchanging n) = refl
push-tail q (linking prev n) = refl

pub move-Inv : (s : System) → Inv s → (i : ℕ) → Inv (push_at s i)
move-Inv s inv i =
    pushed-Inv s inv ((push s.queue (s.calls i)).0)
      (assign s.calls i ((push s.queue (s.calls i)).1)) s.consumer (exchanged_by (s.calls i))
      (push-Pushed (record { chain = inv.chain; head = inv.head }) (suc i) (s.calls i) refl
        (producer-Changed s.calls s.consumer i ((push s.queue (s.calls i)).1)))
      (push-tail s.queue (s.calls i)) inv.consumer

pub invoke-Inv :
    (s : System) → Inv s → (i n : ℕ) → s.calls i ≡ done → s.owned n ≡ true → Inv (invoke_at s i n)
invoke-Inv s inv i n rest mine = record {
  from = inv.from;
  head = inv.head;
  tail = inv.tail;
  chain =
      Chain-begun inv.chain (suc i) n (set_owned s.owned n false) rest
        (producer-Changed s.calls s.consumer i (clearing n)) (inv.chain.outside n mine)
        (λ v. inv.chain.not_brought n v mine) (λ z. absurd (inv.chain.not_stub n mine z)) less;
  consumer = inv.consumer;
  fifo = inv.fifo;
}
  where
    less : (m : ℕ) → set_owned s.owned n false m ≡ true → (s.owned m ≡ true) × (n ≢ m)
    less m e = elim (ℕ_discrete n m) [
      | yes same ↦ absurd (ground arith)
      | no other ↦ (ground arith, other)
    ]

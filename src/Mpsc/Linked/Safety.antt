-- ===== src/Mpsc/Linked/Safety.antt =====
-- What holds in every state that the threads of a linked queue can reach.
use shclog.Prelude.{
  ℕ, suc, ◌≡◌, ◌≢◌, inl, inr, sym, ◌∙◌, ap, refl, subst, true, false, Option, none, some, List, [],
  ◌∷◌, ◌++◌, take, drop, take-append-drop, arith, Bool-cases,
}
use shclog.Mpsc.Linked.{
  Push, done, clearing, exchanging, linking, Consumer, ready, past_stub, comparing, pushing,
  rechecking, push_of, System, Reach,
}
use shclog.Mpsc.Linked.Chain.{node_at, brings, Knows, ConsumerKnows, pushes_of, items, Inv}
use shclog.Mpsc.Linked.Runs.{Reach-Inv}

pub items-append : (xs ys : List ℕ) → items (xs ++ ys) ≡ items xs ++ items ys
items-append [] ys = refl
items-append (x ∷ xs) ys = ground (arith, items-append xs ys)

pub data Thread : Type 0 where
  producer : ℕ → Thread
  the_consumer : Thread

-- The node whose `next` the next access of a push touches.
abbrev pub touched_by : Push → Option ℕ
touched_by (clearing n) = some n
touched_by (linking prev n) = some prev
touched_by p = none

abbrev pub touched : ℕ → Consumer → Option ℕ
touched tail ready = some tail
touched tail (past_stub t) = some t
touched tail (comparing t) = none
touched tail (pushing t p) = touched_by p
touched tail (rechecking t) = some t

abbrev pub touches : System → Thread → Option ℕ
touches s (producer i) = touched_by (s.calls i)
touches s the_consumer = touched s.queue.tail s.consumer

-- The items that are not returned yet.
pub in_order : (s : System) → Inv s → (rest : List ℕ) × (items s.exchanged ≡ s.given ++ rest)
in_order s inv = (
  items (drop inv.from s.exchanged),
  ap items (sym (take-append-drop inv.from s.exchanged))
      ∙ items-append (take inv.from s.exchanged) (drop inv.from s.exchanged)
      ∙ ap (λ xs. xs ++ items (drop inv.from s.exchanged)) (sym inv.fifo),
)

some_eq : {a b : ℕ} → some a ≡ some b → a ≡ b
some_eq e = ground arith

module _ {s : System} (r : Reach s) where
  -- In every reachable state the nodes that `pop` returned are the first of the items' nodes that
  -- `push` has put into `head`, in that order.
  pub linked_order : (rest : List ℕ) × (items s.exchanged ≡ s.given ++ rest)
  linked_order = in_order s (Reach-Inv r)

  -- A node that callers own is neither in the queue nor in a push.
  not_touched_by :
      (inv : Inv s) (n w : ℕ) (p : Push)
      → s.owned n ≡ true
      → pushes_of s.calls s.consumer w ≡ p
      → Knows s.exchanged inv.from s.queue.next p
      → touched_by p ≢ some n
  not_touched_by inv n w done o at k e = cc
  not_touched_by inv n w (exchanging m) o at k e = cc
  not_touched_by inv n w (clearing m) o at k e = inv.chain.not_brought n w o (ap brings at ∙ e)
  not_touched_by inv n w (linking prev m) o at (p, lo, hi, f, _, _) e =
      inv.chain.outside n o p lo (omega arith) (sym f ∙ some_eq e)

  at_tail :
      (inv : Inv s) (n t : ℕ) → s.owned n ≡ true → t ≡ node_at s.exchanged inv.from → t ≡ n → ⊥
  at_tail inv n t o at e =
      inv.chain.outside n o inv.from (omega arith) inv.chain.some_node (sym at ∙ e)

  not_touched :
      (inv : Inv s) (n : ℕ) (c : Consumer)
      → s.owned n ≡ true
      → s.consumer ≡ c
      → ConsumerKnows s.exchanged inv.from c
      → touched s.queue.tail c ≢ some n
  not_touched inv n ready o at k e =
      inv.chain.outside n o inv.from (omega arith) inv.chain.some_node (sym inv.tail ∙ some_eq e)
  not_touched inv n (past_stub t) o at k e = at_tail inv n t o (k.0) (some_eq e)
  not_touched inv n (comparing t) o at k e = cc
  not_touched inv n (pushing t p) o at k e =
      not_touched_by inv n 0 p o (ap push_of at)
        (subst (Knows s.exchanged inv.from s.queue.next) (ap push_of at) (inv.chain.knows 0)) e
  not_touched inv n (rechecking t) o at k e = at_tail inv n t o (k.0) (some_eq e)

  not_owned : (n : ℕ) → (s.owned n ≢ true) → s.owned n ≡ false
  not_owned n h = elim (Bool-cases (s.owned n)) [ inl t ↦ absurd (h t) | inr f ↦ f ]

  -- In every reachable state no thread's next access touches a node that a caller owns: neither a
  -- node that `dequeue` returned, nor one that was never enqueued.
  pub touch_safe : (a : Thread) (n : ℕ) → touches s a ≡ some n → s.owned n ≡ false
  touch_safe (producer i) n e =
      let inv = Reach-Inv r in
      not_owned n (λ o. not_touched_by inv n (suc i) (s.calls i) o refl (inv.chain.knows (suc i)) e)
  touch_safe the_consumer n e =
      let inv = Reach-Inv r in not_owned n (λ o. not_touched inv n s.consumer o refl inv.consumer e)

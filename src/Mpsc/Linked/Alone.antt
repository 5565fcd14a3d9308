-- ===== src/Mpsc/Linked/Alone.antt =====
-- A call of `dequeue` while no call of `enqueue` is under way.
use shclog.Prelude.{
  ℕ, zero, suc, ◌≡◌, inl, inr, sym, ◌∙◌, ap, refl, true, none, some, List, [], ◌∷◌, ◌++◌, length,
  arith, ◌==◌, ==_iff, ℕ_discrete,
}
use mathlib.Core.List.{append-nil}
use shclog.Mpsc.Linked.{
  Queue, Push, done, clearing, exchanging, linking, push, Consumer, ready, comparing, pushing,
  rechecking, Answer, pending, null, node, take_tail, after_push, pop, exchanged_by, push_of,
  given_by, store_next, System, pop_at,
}
use shclog.Mpsc.Linked.Chain.{node_at, Linked, pushes_of, items, Inv}
use shclog.Mpsc.Linked.Pops.{pop_at-Inv}
use shclog.Mpsc.Linked.Safety.{items-append}

-- The state after an access, with its answer, or what the accesses after it come to.
abbrev pub answered : Answer → System → System × Answer → System × Answer
answered pending t rest = rest
answered null t rest = (t, null)
answered (node n) t rest = (t, node n)

-- The consumer's accesses up to the answer; `pending` stands for accesses left when the fuel is gone.
unfoldable pub dequeue_alone : ℕ → System → System × Answer
unfolding pop
dequeue_alone zero s = (s, pending)
dequeue_alone (suc fuel) s =
    answered ((pop s.queue s.consumer).2) (pop_at s) (dequeue_alone fuel (pop_at s))

-- The consumer went from `s` to `t`, at the queue `q` and the place `c`, and gave the nodes `g`.
pub record Went (s t : System) (q : Queue) (c : Consumer) (g : List ℕ) : Type 0 where
  pub inv : Inv t
  pub queue : t.queue ≡ q
  pub consumer : t.consumer ≡ c
  pub calls : t.calls ≡ s.calls
  pub given : t.given ≡ s.given ++ g
  pub nodes : items t.exchanged ≡ items s.exchanged

module _ {s t : System} {q : Queue} {c : Consumer} (w : Went s t q c []) where
  same_pop : (r : Queue × Consumer × Answer) → pop q c ≡ r → pop t.queue t.consumer ≡ r
  same_pop r e = ap (λ (x : Queue). pop x t.consumer) w.queue ∙ ap (pop q) w.consumer ∙ e

  -- One access more.
  pub Went-pop :
      (q' : Queue) (c' : Consumer) (a : Answer)
      → pop q c ≡ (q', c', a)
      → items (exchanged_by (push_of c)) ≡ []
      → Went s (pop_at t) q' c' (given_by a)
  Went-pop q' c' a e stub = record {
    inv = pop_at-Inv t w.inv;
    queue = ap (λ (x : Queue × Consumer × Answer). x.0) (same_pop (q', c', a) e);
    consumer = ap (λ (x : Queue × Consumer × Answer). x.1) (same_pop (q', c', a) e);
    calls = w.calls;
    given =
        ap (λ xs. xs ++ given_by ((pop t.queue t.consumer).2)) (w.given ∙ append-nil s.given)
        ∙ ap (λ (x : Queue × Consumer × Answer). s.given ++ given_by (x.2))
            (same_pop (q', c', a) e);
    nodes =
        items-append t.exchanged (exchanged_by (push_of t.consumer))
        ∙ ap (λ xs. items t.exchanged ++ xs)
            (ap (λ (x : Consumer). items (exchanged_by (push_of x))) w.consumer ∙ stub)
        ∙ append-nil (items t.exchanged)
        ∙ w.nodes;
  }

  answer_eq :
      (q' : Queue) (c' : Consumer) (a : Answer)
      → pop q c ≡ (q', c', a)
      → (pop t.queue t.consumer).2 ≡ a
  answer_eq q' c' a e = ap (λ (x : Queue × Consumer × Answer). x.2) (same_pop (q', c', a) e)

  pub goes_on :
      (fuel : ℕ) (q' : Queue) (c' : Consumer)
      → pop q c ≡ (q', c', pending)
      → dequeue_alone (suc fuel) t ≡ dequeue_alone fuel (pop_at t)
  unfolding dequeue_alone
  goes_on fuel q' c' e =
      ap (λ (a : Answer). answered a (pop_at t) (dequeue_alone fuel (pop_at t)))
        (answer_eq q' c' pending e)

  ends :
      (fuel : ℕ) (q' : Queue) (c' : Consumer) (n : ℕ)
      → pop q c ≡ (q', c', node n)
      → dequeue_alone (suc fuel) t ≡ (pop_at t, node n)
  unfolding dequeue_alone
  ends fuel q' c' n e =
      ap (λ (a : Answer). answered a (pop_at t) (dequeue_alone fuel (pop_at t)))
        (answer_eq q' c' (node n) e)

  pub ends_null :
      (fuel : ℕ) (q' : Queue) (c' : Consumer)
      → pop q c ≡ (q', c', null)
      → dequeue_alone (suc fuel) t ≡ (pop_at t, null)
  unfolding dequeue_alone
  ends_null fuel q' c' e =
      ap (λ (a : Answer). answered a (pop_at t) (dequeue_alone fuel (pop_at t)))
        (answer_eq q' c' null e)

-- The last part of `pop` on an item at the tail, from the first load of its `next` on.
module _ {s t : System} {q : Queue} {c : Consumer} (w : Went s t q c []) (n : ℕ)
    (quiet : (i : ℕ) → s.calls i ≡ done)
    (at : pop q c ≡ take_tail q n (q.next n) (comparing n) pending) (own : push_of c ≡ done)
    (tail : q.tail ≡ n) where
  abbrev pub Given : ℕ → System → Type 0
  Given fuel u =
      (v : System) × (p : Queue) × (dequeue_alone fuel u ≡ (v, node n)) × Went s v p ready (n ∷ [])

  pub linked_item : (x fuel : ℕ) → q.next n ≡ some x → Given (suc fuel) t
  unfolding take_tail
  linked_item x fuel e =
      let r : pop q c ≡ (record q { tail = x }, ready, node n) = at ∙ rw (e, take_tail) refl in
      (
        pop_at t,
        record q { tail = x },
        ends w fuel (record q { tail = x }) ready n r,
        Went-pop w (record q { tail = x }) ready (node n) r
            (ap (λ (p : Push). items (exchanged_by p)) own),
      )

  -- The queue has only this node.
  is_head : q.next n ≡ none → q.head ≡ n
  is_head e = elim (ℕ_discrete (suc w.inv.from) (length t.exchanged)) [
    | yes end ↦ ap (λ (x : Queue). x.head) (sym w.queue) ∙ w.inv.head w.inv.from end ∙ oldest
    | no more ↦ absurd (
        not_linked
          (w.inv.chain.linked w.inv.from (omega arith) (omega (arith, w.inv.chain.some_node))))
  ]
    where
      oldest : node_at t.exchanged w.inv.from ≡ n
      oldest = sym w.inv.tail ∙ ap (λ (x : Queue). x.tail) w.queue ∙ tail

      all_done : (v : ℕ) → pushes_of t.calls t.consumer v ≡ done
      all_done zero = ap push_of w.consumer ∙ own
      all_done (suc i) = ap (λ (cs : ℕ → Push). cs i) w.calls ∙ quiet i

      no_next : t.queue.next (node_at t.exchanged w.inv.from) ≡ none
      no_next = ap t.queue.next oldest ∙ ap (λ (x : Queue). x.next n) w.queue ∙ e

      not_linked : Linked t.exchanged t.queue.next (pushes_of t.calls t.consumer) w.inv.from → ⊥
      not_linked (inl l) = ground (arith, no_next)
      not_linked (inr (_, (v, l))) = ground (arith, all_done v)

  -- `push(&stub)` links the stub behind the node, and the last load finds it.
  pub single_item : (fuel : ℕ) → q.next n ≡ none → Given (suc (suc (suc (suc (suc (suc fuel)))))) t
  unfolding pop push after_push take_tail
  single_item fuel e =
      let q1 : Queue = store_next q 0 none in
      let q2 : Queue = record q1 { head = 0 } in
      let q3 : Queue = store_next q2 q.head (some 0) in
      let r1 : pop q c ≡ (q, comparing n, pending) = at ∙ rw (e, take_tail) refl in
      let none_given = ap (λ (p : Push). items (exchanged_by p)) own in
      let w1 = Went-pop w q (comparing n) pending r1 none_given in
      let same : (n == q.head) ≡ true = (==_iff n q.head).1 (sym (is_head e)) in
      let r2 : pop q (comparing n) ≡ (q, pushing n (clearing 0), pending) = rw same refl in
      let w2 = Went-pop w1 q (pushing n (clearing 0)) pending r2 refl in
      let w3 = Went-pop w2 q1 (pushing n (exchanging 0)) pending refl refl in
      let w4 = Went-pop w3 q2 (pushing n (linking q.head 0)) pending refl refl in
      let w5 = Went-pop w4 q3 (rechecking n) pending refl refl in
      let found : q3.next n ≡ some 0 = rw ((==_iff q.head n).1 (is_head e)) refl in
      let r6 : pop q3 (rechecking n) ≡ (record q3 { tail = 0 }, ready, node n) =
        rw (found, take_tail) refl in
      (
        _,
        record q3 { tail = 0 },
        goes_on w _ q (comparing n) r1
            ∙ goes_on w1 _ q (pushing n (clearing 0)) r2
            ∙ goes_on w2 _ q1 (pushing n (exchanging 0)) refl
            ∙ goes_on w3 _ q2 (pushing n (linking q.head 0)) refl
            ∙ goes_on w4 _ q3 (rechecking n) refl
            ∙ ends w5 fuel (record q3 { tail = 0 }) ready n r6,
        Went-pop w5 (record q3 { tail = 0 }) ready (node n) r6 refl,
      )

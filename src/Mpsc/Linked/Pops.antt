-- ===== src/Mpsc/Linked/Pops.antt =====
-- The steps of the consumer keep the invariant.
use shclog.Prelude.{
  ℕ, zero, suc, ◌-◌, ◌≡◌, ◌≢◌, inl, inr, sym, ◌∙◌, ap, refl, subst, false, some, List, [], ◌++◌,
  length, arith, ◌==◌, ==_iff, ℕ_discrete, Option-cases,
}
use mathlib.Core.List.{append-nil}
use shclog.Mpsc.Linked.{
  Queue, Push, done, clearing, exchanging, linking, push, Consumer, ready, past_stub, comparing,
  pushing, rechecking, Answer, pending, null, node, take_tail, skip_stub, after_push, pop,
  exchanged_by, push_of, System, pop_at,
}
use shclog.Mpsc.Linked.Chain.{node_at, brings, Outside, IsTail, ConsumerKnows, pushes_of, Inv}
use shclog.Mpsc.Linked.Tails.{Chain-begun}
use shclog.Mpsc.Linked.Steps.{push-Pushed, pushed-Inv, push-tail}
use shclog.Mpsc.Linked.Gives.{popped, nothing_pushed, stays, skips, gives}

module _ (s : System) (inv : Inv s) where
  -- An access whose result is known.
  results :
      (more : List ℕ) (r t : Queue × Consumer × Answer)
      → r ≡ t
      → Inv ((popped s inv) more t)
      → Inv ((popped s inv) more r)
  results more r t e =
      subst (λ (x : Queue × Consumer × Answer). Inv ((popped s inv) more x)) (sym e)

  -- A load of `local_tail->next`, for an item at the tail.
  takes :
      (t : ℕ) (c : Consumer) (a : Answer)
      → IsTail s.exchanged inv.from t
      → push_of s.consumer ≡ done
      → Inv ((popped s inv) [] (s.queue, c, a))
      → Inv ((popped s inv) [] (take_tail s.queue t (s.queue.next t) c a))
  unfolding take_tail
  takes t c a k p other = elim (Option-cases (s.queue.next t)) [
    | inl e ↦
        results [] (take_tail s.queue t (s.queue.next t) c a) (s.queue, c, a)
          (rw (e, take_tail) refl) other
    | inr (x, e) ↦
        results [] (take_tail s.queue t (s.queue.next t) c a)
          (record s.queue { tail = x }, ready, node t) (rw (e, take_tail) refl)
          ((gives s inv) x t k e p)
  ]

  -- The stub is the tail.
  from_stub :
      s.queue.tail ≡ 0
      → s.consumer ≡ ready
      → Inv ((popped s inv) [] (skip_stub s.queue (s.queue.next s.queue.tail)))
  unfolding skip_stub
  from_stub z at = elim (Option-cases (s.queue.next s.queue.tail)) [
    | inl e ↦
        results [] (skip_stub s.queue (s.queue.next s.queue.tail)) (s.queue, ready, null)
          (rw (e, skip_stub) refl) ((stays s inv) ready (sym (ap push_of at)) tt)
    | inr (x, e) ↦
        results [] (skip_stub s.queue (s.queue.next s.queue.tail))
          (record s.queue { tail = x }, past_stub x, pending) (rw (e, skip_stub) refl)
          ((skips s inv) x z e (ap push_of at))
  ]

  -- The tail is the head: `push(&stub)` begins.
  begins :
      (t : ℕ)
      → IsTail s.exchanged inv.from t
      → t ≡ s.queue.head
      → push_of s.consumer ≡ done
      → Inv ((popped s inv) [] (s.queue, pushing t (clearing 0), pending))
  begins t (at, item) e p =
      (nothing_pushed s inv) s.queue (pushing t (clearing 0)) pending (record {
        from = inv.from;
        head = inv.head;
        tail = inv.tail;
        chain =
            Chain-begun inv.chain 0 0 s.owned p (record { here = refl; others = others })
              stub_outside
              (λ v b. no_push (
                ap (λ (x : ℕ). brings (pushes_of s.calls s.consumer x))
                  (sym (inv.chain.stub_bringer v b))
                ∙ b))
              (λ _. refl) (λ m o. (o, λ z. inv.chain.not_stub m o (sym z)));
        consumer = (at, item);
        fifo = append-nil s.given ∙ inv.fifo;
      })
    where
      others :
          (v : ℕ)
          → 0 ≢ v
          → pushes_of s.calls (pushing t (clearing 0)) v ≡ pushes_of s.calls s.consumer v
      others zero ne = absurd (ne refl)
      others (suc i) ne = refl

      no_push : brings (push_of s.consumer) ≢ some 0
      no_push b = ground (arith, ap brings p)

      end : suc (length s.exchanged - 1) ≡ length s.exchanged
      end = omega (arith, inv.chain.some_node)

      -- The queue has one node.
      single : inv.from ≡ length s.exchanged - 1
      single =
          inv.chain.distinct inv.from (length s.exchanged - 1) (omega arith) inv.chain.some_node
            (omega (arith, inv.chain.some_node)) (omega (arith, end))
            (sym at ∙ e ∙ inv.head (length s.exchanged - 1) end)

      stub_outside : Outside s.exchanged inv.from 0
      stub_outside p lo hi z =
          item (at ∙ ap (node_at s.exchanged) {y = p} (omega (arith, single)) ∙ z)

  popped-Inv :
      (c : Consumer)
      → s.consumer ≡ c
      → Inv ((popped s inv) (exchanged_by (push_of c)) (pop s.queue c))
  unfolding pop after_push
  popped-Inv ready at = elim (ℕ_discrete s.queue.tail 0) [
    | yes z ↦
        results [] (pop s.queue ready) (skip_stub s.queue (s.queue.next s.queue.tail))
          (rw ((==_iff s.queue.tail 0).1 z) refl) (from_stub z at)
    | no nz ↦
        results [] (pop s.queue ready)
          (take_tail s.queue s.queue.tail (s.queue.next s.queue.tail) (comparing s.queue.tail)
            pending)
          (rw (not_stub nz) refl)
          (takes s.queue.tail (comparing s.queue.tail) pending (inv.tail, nz) (ap push_of at)
            ((stays s inv) (comparing s.queue.tail) (sym (ap push_of at)) (inv.tail, nz)))
  ]
    where
      not_stub : s.queue.tail ≢ 0 → (s.queue.tail == 0) ≡ false
      not_stub nz = ground arith
  popped-Inv (past_stub t) at =
      let k = subst (ConsumerKnows s.exchanged inv.from) at inv.consumer in
      takes t (comparing t) pending k (ap push_of at)
        ((stays s inv) (comparing t) (sym (ap push_of at)) k)
  popped-Inv (rechecking t) at =
      let k = subst (ConsumerKnows s.exchanged inv.from) at inv.consumer in
      takes t ready null k (ap push_of at) ((stays s inv) ready (sym (ap push_of at)) tt)
  popped-Inv (comparing t) at =
      let k = subst (ConsumerKnows s.exchanged inv.from) at inv.consumer in
      elim (ℕ_discrete t s.queue.head) [
        | yes e ↦
            results [] (pop s.queue (comparing t)) (s.queue, pushing t (clearing 0), pending)
              (rw ((==_iff t s.queue.head).1 e) refl) (begins t k e (ap push_of at))
        | no ne ↦
            results [] (pop s.queue (comparing t)) (s.queue, ready, null) (rw (differs ne) refl)
              ((stays s inv) ready (sym (ap push_of at)) tt)
      ]
    where
      differs : t ≢ s.queue.head → (t == s.queue.head) ≡ false
      differs ne = ground arith
  popped-Inv (pushing t p) at =
      subst
        (λ (xs : List ℕ). Inv (record s {
          queue = (push s.queue p).0;
          consumer = after_push t ((push s.queue p).1);
          exchanged = s.exchanged ++ exchanged_by p;
          given = xs;
        }))
        (sym (append-nil s.given))
        (pushed-Inv s inv ((push s.queue p).0) s.calls (after_push t ((push s.queue p).1))
          (exchanged_by p)
          (push-Pushed (record { chain = inv.chain; head = inv.head }) 0 p (ap push_of at)
            (record { here = after_push-push ((push s.queue p).1); others = others }))
          (push-tail s.queue p)
          (after_push-Knows ((push s.queue p).1)
            (subst (ConsumerKnows s.exchanged inv.from) at inv.consumer)))
    where
      after_push-push : (x : Push) → push_of (after_push t x) ≡ x
      after_push-push done = refl
      after_push-push (clearing n) = refl
      after_push-push (exchanging n) = refl
      after_push-push (linking prev n) = refl

      after_push-Knows :
          (x : Push)
          → IsTail s.exchanged inv.from t
          → ConsumerKnows s.exchanged inv.from (after_push t x)
      after_push-Knows done k = k
      after_push-Knows (clearing n) k = k
      after_push-Knows (exchanging n) k = k
      after_push-Knows (linking prev n) k = k

      others :
          (v : ℕ)
          → 0 ≢ v
          → pushes_of s.calls (after_push t ((push s.queue p).1)) v ≡ pushes_of s.calls s.consumer v
      others zero ne = absurd (ne refl)
      others (suc i) ne = refl

pub pop_at-Inv : (s : System) → Inv s → Inv (pop_at s)
pop_at-Inv s inv = popped-Inv s inv s.consumer refl

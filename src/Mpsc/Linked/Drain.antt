-- ===== src/Mpsc/Linked/Drain.antt =====
-- The destructor's loop returns every item that is left, and ends.
use shclog.Prelude.{
  take_all, ℕ, zero, suc, ◌≡◌, ◌≢◌, ◌⊎◌, inl, inr, sym, ◌∙◌, ap, refl, true, false, Option, none,
  some, List, [], ◌∷◌, ◌++◌, length, length-append, take, take-suc, arith, ◌==◌, ==_iff, ℕ_discrete,
  Option-cases,
}
use mathlib.Core.List.{append-nil, append_assoc, tail-eq_of_cons-eq}
use shclog.Mpsc.Linked.{
  Queue, Push, done, ready, past_stub, comparing, Answer, pending, null, node, take_tail, skip_stub,
  pop, push_of, System, Reach,
}
use shclog.Mpsc.Linked.Chain.{Linked, pushes_of, items, Inv}
use shclog.Mpsc.Linked.Runs.{Reach-Inv}
use shclog.Mpsc.Linked.Safety.{items-append, in_order}
use shclog.Mpsc.Linked.Alone.{
  dequeue_alone, Went, Went-pop, goes_on, ends_null, linked_item, single_item,
}

abbrev pub drained : Answer → Option (List ℕ) → Option (List ℕ)
drained (node n) (some ns) = some (n ∷ ns)
drained (node n) none = none
drained null rest = some []
drained pending rest = none

-- `~UnboundedLinkedMPSCQ()`: `while (auto item = dequeue())`, with the items; `none` stands for rounds
-- left when the fuel is gone.
unfoldable pub drain : ℕ → System → Option (List ℕ)
unfolding dequeue_alone
drain zero s = none
drain (suc fuel) s = drained ((dequeue_alone 7 s).1) (drain fuel ((dequeue_alone 7 s).0))

append_cancel : (xs ys zs : List ℕ) → xs ++ ys ≡ xs ++ zs → ys ≡ zs
append_cancel [] ys zs e = e
append_cancel (x ∷ xs) ys zs e = append_cancel xs ys zs (ground arith)

-- What a call of `dequeue` comes to, when no other call is under way.
Outcome : System → Type 0
unfolding dequeue_alone
Outcome s =
    ((t : System) × (q : Queue) × (n : ℕ) × (dequeue_alone 7 s ≡ (t, node n))
      × Went s t q ready (n ∷ []))
    ⊎ ((t : System) × (dequeue_alone 7 s ≡ (t, null)) × (items s.exchanged ≡ s.given))

module _ (s : System) (inv : Inv s) (quiet : (i : ℕ) → s.calls i ≡ done)
    (at : s.consumer ≡ ready) where
  at_start : Went s s s.queue ready []
  at_start = record {
    inv = inv;
    queue = refl;
    consumer = at;
    calls = refl;
    given = sym (append-nil s.given);
    nodes = refl;
  }

  item_first : s.queue.tail ≢ 0 → Outcome s
  unfolding Outcome pop
  item_first nz =
      let first : pop s.queue ready
          ≡ take_tail s.queue s.queue.tail (s.queue.next s.queue.tail) (comparing s.queue.tail)
              pending =
        rw (not_stub nz) refl in
      elim (Option-cases (s.queue.next s.queue.tail)) [
        | inl e ↦
            let (t, q, r, w) = single_item at_start s.queue.tail quiet first refl refl 1 e in
            inl (t, q, s.queue.tail, r, w)
        | inr (x, e) ↦
            let (t, q, r, w) = linked_item at_start s.queue.tail quiet first refl refl x 6 e in
            inl (t, q, s.queue.tail, r, w)
      ]
    where
      not_stub : s.queue.tail ≢ 0 → (s.queue.tail == 0) ≡ false
      not_stub ne = ground arith

  -- Only the stub is left.
  nothing_left : s.queue.tail ≡ 0 → s.queue.next s.queue.tail ≡ none → items s.exchanged ≡ s.given
  nothing_left z e = elim (ℕ_discrete (suc inv.from) (length s.exchanged)) [
    | yes end ↦
        ap items (
          sym (take_all (suc inv.from) s.exchanged (omega arith))
          ∙ take-suc inv.from s.exchanged 0 inv.chain.some_node
          ∙ ap (λ (n : ℕ). take inv.from s.exchanged ++ (n ∷ [])) (sym inv.tail ∙ z))
        ∙ items-append (take inv.from s.exchanged) (0 ∷ [])
        ∙ append-nil (items (take inv.from s.exchanged))
        ∙ sym inv.fifo
    | no more ↦
        absurd (
          not_linked (inv.chain.linked inv.from (omega arith) (omega (arith, inv.chain.some_node))))
  ]
    where
      all_done : (v : ℕ) → pushes_of s.calls s.consumer v ≡ done
      all_done zero = ap push_of at
      all_done (suc i) = quiet i

      not_linked : Linked s.exchanged s.queue.next (pushes_of s.calls s.consumer) inv.from → ⊥
      not_linked (inl l) = ground (arith, ap s.queue.next inv.tail)
      not_linked (inr (_, (v, l))) = ground (arith, all_done v)

  stub_first : s.queue.tail ≡ 0 → Outcome s
  unfolding Outcome pop skip_stub
  stub_first z = elim (Option-cases (s.queue.next s.queue.tail)) [
    | inl e ↦
        let r : pop s.queue ready ≡ (s.queue, ready, null) = rw (is_stub z, e, skip_stub) refl in
        inr (_, ends_null at_start 6 s.queue ready r, nothing_left z e)
    | inr (x, e) ↦
        let q1 : Queue = record s.queue { tail = x } in
        let r : pop s.queue ready ≡ (q1, past_stub x, pending) =
          rw (is_stub z, e, skip_stub) refl in
        let w1 = Went-pop at_start q1 (past_stub x) pending r refl in
        elim (Option-cases (q1.next x)) [
          | inl f ↦
              let (t, q, g, w) = single_item w1 x quiet refl refl refl 0 f in
              inl (t, q, x, goes_on at_start 6 q1 (past_stub x) r ∙ g, w)
          | inr (y, f) ↦
              let (t, q, g, w) = linked_item w1 x quiet refl refl refl y 5 f in
              inl (t, q, x, goes_on at_start 6 q1 (past_stub x) r ∙ g, w)
        ]
  ]
    where
      is_stub : s.queue.tail ≡ 0 → (s.queue.tail == 0) ≡ true
      is_stub e = (==_iff s.queue.tail 0).1 e

  outcome : Outcome s
  outcome = elim (ℕ_discrete s.queue.tail 0) [ yes z ↦ stub_first z | no nz ↦ item_first nz ]

drain-rest :
    (rest : List ℕ) (s : System)
    → Inv s
    → ((i : ℕ) → s.calls i ≡ done)
    → s.consumer ≡ ready
    → items s.exchanged ≡ s.given ++ rest
    → drain (suc (length rest)) s ≡ some rest
unfolding drain Outcome
drain-rest [] s inv quiet at e = by_outcome (outcome s inv quiet at)
  where
    extra :
        (t : System) (q : Queue) (n : ℕ)
        → Went s t q ready (n ∷ [])
        → (more : List ℕ) × (items t.exchanged ≡ t.given ++ more)
        → ⊥
    extra t q n w (more, o) =
        let all : s.given ++ [] ≡ (s.given ++ (n ∷ [])) ++ more =
          sym e ∙ sym w.nodes ∙ o ∙ ap (λ xs. xs ++ more) w.given in
        omega (
          arith,
          ap length all,
          length-append s.given [],
          length-append (s.given ++ (n ∷ [])) more,
          length-append s.given (n ∷ []),
        )

    by_outcome : Outcome s → drain 1 s ≡ some []
    by_outcome (inl (t, q, n, r, w)) = absurd (extra t q n w (in_order t w.inv))
    by_outcome (inr (t, r, o)) = ap (λ (x : System × Answer). drained (x.1) (drain 0 (x.0))) r
drain-rest (m ∷ rest) s inv quiet at e =
    by_outcome (λ t i c d o. drain-rest rest t i c d o) (outcome s inv quiet at)
  where
    cut :
        (t : System) (q : Queue) (n : ℕ)
        → Went s t q ready (n ∷ [])
        → (more : List ℕ) × (items t.exchanged ≡ t.given ++ more)
        → (n ≡ m) × (items t.exchanged ≡ t.given ++ rest)
    cut t q n w (more, o) =
        let same : n ∷ more ≡ m ∷ rest = append_cancel s.given (n ∷ more) (m ∷ rest) (
          sym (append_assoc s.given (n ∷ []) more)
          ∙ ap (λ xs. xs ++ more) (sym w.given)
          ∙ sym o
          ∙ w.nodes
          ∙ e) in
        (ground arith, o ∙ ap (λ xs. t.given ++ xs) (tail-eq_of_cons-eq same))

    by_outcome :
        ((t : System)
          → Inv t
          → ((i : ℕ) → t.calls i ≡ done)
          → t.consumer ≡ ready
          → items t.exchanged ≡ t.given ++ rest
          → drain (suc (length rest)) t ≡ some rest)
        → Outcome s
        → drain (suc (suc (length rest))) s ≡ some (m ∷ rest)
    by_outcome rec (inr (t, r, o)) =
        absurd (omega (arith, ap length (sym e ∙ o), length-append s.given (m ∷ rest)))
    by_outcome rec (inl (t, q, n, r, w)) =
        let (same, o) = cut t q n w (in_order t w.inv) in
        ap (λ (x : System × Answer). drained (x.1) (drain (suc (length rest)) (x.0))) r
        ∙ ap (drained (node n))
            (rec t w.inv (λ i. ap (λ (cs : ℕ → Push). cs i) w.calls ∙ quiet i) w.consumer o)
        ∙ ap (λ (x : ℕ). some (x ∷ rest)) same

-- In a reachable state where no call is under way, the destructor's loop dequeues exactly the items
-- that were pushed and not returned yet, in order, and ends.
pub linked_drain :
    {s : System}
    → Reach s
    → ((i : ℕ) → s.calls i ≡ done)
    → s.consumer ≡ ready
    → (rest : List ℕ) × (items s.exchanged ≡ s.given ++ rest)
      × (drain (suc (length rest)) s ≡ some rest)
linked_drain {s} r quiet at =
    let (rest, e) = in_order s (Reach-Inv r) in
    (rest, e, drain-rest rest s (Reach-Inv r) quiet at e)

-- ===== src/Mpsc/Linked/Gives.antt =====
-- An access of the consumer that gives a node or skips the stub keeps the invariant.
use shclog.Prelude.{
  ℕ, zero, suc, ◌<◌, ◌≡◌, ◌≢◌, ◌⊎◌, inl, inr, sym, ◌∙◌, ap, ap₂, refl, subst, true, some, List, [],
  ◌∷◌, ◌++◌, length, take, take-suc, arith, ℕ_discrete,
}
use mathlib.Core.List.{append-nil}
use mathlib.Core.Path.{fun_ext}
use shclog.Mpsc.Linked.{
  Queue, Push, done, Consumer, ready, past_stub, Answer, pending, node, push_of, given_by,
  owned_after, set_owned, System,
}
use shclog.Mpsc.Linked.Chain.{node_at, Chain, IsTail, ConsumerKnows, pushes_of, items, Inv}
use shclog.Mpsc.Linked.Tails.{Chain-advanced}

-- One more node at the end of a history.
items-append_one : (ns : List ℕ) (n : ℕ) → items (ns ++ (n ∷ [])) ≡ items ns ++ items (n ∷ [])
items-append_one [] n = refl
items-append_one (m ∷ ns) n = ground (arith, items-append_one ns n)

module _ (s : System) (inv : Inv s) where
  -- the state after an access of the consumer that found `c` and gave `r`
  abbrev pub popped : List ℕ → Queue × Consumer × Answer → System
  popped more (q, c, a) = record s {
    queue = q;
    consumer = c;
    exchanged = s.exchanged ++ more;
    given = s.given ++ given_by a;
    owned = owned_after s.owned a;
  }

  -- What an access leaves, where it enters nothing into `head`.
  pub nothing_pushed :
      (q : Queue) (c : Consumer) (a : Answer)
      → Inv (record s {
        queue = q;
        consumer = c;
        given = s.given ++ given_by a;
        owned = owned_after s.owned a;
      })
      → Inv (popped [] (q, c, a))
  nothing_pushed q c a =
      subst
        (λ (ns : List ℕ). Inv (record s {
          queue = q;
          consumer = c;
          exchanged = ns;
          given = s.given ++ given_by a;
          owned = owned_after s.owned a;
        }))
        (sym (append-nil s.exchanged))

  same_pushes :
      (c : Consumer)
      → push_of c ≡ push_of s.consumer
      → pushes_of s.calls s.consumer ≡ pushes_of s.calls c
  same_pushes c e = fun_ext each
    where
      each : (v : ℕ) → pushes_of s.calls s.consumer v ≡ pushes_of s.calls c v
      each zero = sym e
      each (suc i) = refl

  -- An access that moves nothing.
  pub stays :
      (c : Consumer)
      → push_of c ≡ push_of s.consumer
      → ConsumerKnows s.exchanged inv.from c
      → Inv (popped [] (s.queue, c, pending))
  stays c p k = nothing_pushed s.queue c pending (record {
    from = inv.from;
    head = inv.head;
    tail = inv.tail;
    chain =
        subst (λ (ps : ℕ → Push). Chain s.queue.next ps s.exchanged s.owned inv.from)
          (same_pushes c p) inv.chain;
    consumer = k;
    fifo = append-nil s.given ∙ inv.fifo;
  })

  -- The history of returned nodes when the tail moves.
  moved_fifo :
      (n : ℕ)
      → n ≡ node_at s.exchanged inv.from
      → s.given ++ items (n ∷ []) ≡ items (take (suc inv.from) s.exchanged)
  moved_fifo n e =
      ap₂ (λ xs m. xs ++ items (m ∷ [])) inv.fifo e
      ∙ sym (items-append_one (take inv.from s.exchanged) (node_at s.exchanged inv.from))
      ∙ ap items (sym (take-suc inv.from s.exchanged 0 inv.chain.some_node))

  -- The tail moves on, past the stub.
  pub skips :
      (x : ℕ)
      → s.queue.tail ≡ 0
      → s.queue.next s.queue.tail ≡ some x
      → push_of s.consumer ≡ done
      → Inv (popped [] (record s.queue { tail = x }, past_stub x, pending))
  skips x z e p =
      let (v, c) =
        Chain-advanced inv.chain x s.owned (ap s.queue.next (sym inv.tail) ∙ e) (λ m o. inl o) in
      nothing_pushed (record s.queue { tail = x }) (past_stub x) pending
        (record {
          from = suc inv.from;
          head = inv.head;
          tail = v;
          chain =
              subst (λ (ps : ℕ → Push). Chain s.queue.next ps s.exchanged s.owned (suc inv.from))
                (same_pushes (past_stub x) (sym p)) c;
          consumer = (v, λ x0. not_stub c.some_node (sym v ∙ x0));
          fifo = moved_fifo 0 (sym z ∙ inv.tail);
        })
    where
      not_stub : suc inv.from < length s.exchanged → node_at s.exchanged (suc inv.from) ≢ 0
      not_stub l e0 = absurd (
          omega (
            arith,
            inv.chain.distinct (suc inv.from) inv.from (omega arith) l (omega arith) (omega arith)
                (e0 ∙ sym z ∙ inv.tail),
          ))

  -- The tail moves on, and its old node is returned.
  pub gives :
      (x t : ℕ)
      → IsTail s.exchanged inv.from t
      → s.queue.next t ≡ some x
      → push_of s.consumer ≡ done
      → Inv (popped [] (record s.queue { tail = x }, ready, node t))
  gives x t (at, item) e p =
      let (v, c) =
        Chain-advanced inv.chain x (set_owned s.owned t true) (ap s.queue.next (sym at) ∙ e) more in
      nothing_pushed (record s.queue { tail = x }) ready (node t)
        (record {
          from = suc inv.from;
          head = inv.head;
          tail = v;
          chain =
              subst
                (λ (ps : ℕ → Push).
                  Chain s.queue.next ps s.exchanged (set_owned s.owned t true) (suc inv.from))
                (same_pushes ready (sym p)) c;
          consumer = tt;
          fifo = ap (λ xs. s.given ++ xs) one_item ∙ moved_fifo t at;
        })
    where
      one_item : t ∷ [] ≡ items (t ∷ [])
      one_item = ground arith

      more :
          (m : ℕ)
          → set_owned s.owned t true m ≡ true
          → (s.owned m ≡ true)
            ⊎ ((m ≡ node_at s.exchanged inv.from) × (node_at s.exchanged inv.from ≢ 0))
      more m o = elim (ℕ_discrete t m) [
        | yes same ↦ inr (sym same ∙ at, λ z. item (at ∙ z))
        | no other ↦ inl (ground arith)
      ]

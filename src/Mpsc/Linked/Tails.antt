-- ===== src/Mpsc/Linked/Tails.antt =====
-- A push that begins and a tail that advances keep the chain of a linked queue.
use shclog.Prelude.{
  ℕ, suc, ◌≤◌, ◌<◌, ◌≡◌, ◌≢◌, ◌⊎◌, inl, inr, sym, ◌∙◌, ap, refl, Bool, true, Option, none, some,
  List, length, arith, ℕ_discrete,
}
use shclog.Mpsc.Linked.{Push, done, clearing, exchanging, linking}
use shclog.Mpsc.Linked.Chain.{node_at, brings, links, Outside, Knows, Linked, Chain}
use shclog.Mpsc.Linked.Pushes.{on_change, kept, still}
use shclog.Mpsc.Linked.Pushes.{Changed}

module _ {next : ℕ → Option ℕ} {old new : ℕ → Push} {nodes : List ℕ} {owned : ℕ → Bool} {from : ℕ}
    (s : Chain next old nodes owned from) (w : ℕ) where
  -- A push begins, of a node that is in no other push and not in the queue.
  pub Chain-begun :
      (n : ℕ) (after : ℕ → Bool)
      → old w ≡ done
      → Changed old new w (clearing n)
      → Outside nodes from n
      → ((v : ℕ) → brings (old v) ≢ some n)
      → (n ≡ 0 → w ≡ 0)
      → ((m : ℕ) → after m ≡ true → (owned m ≡ true) × (n ≢ m))
      → Chain next new nodes after from
  Chain-begun n after at c out alone stub less = record {
    some_node = s.some_node;
    distinct = s.distinct;
    linked = λ p lo hi. linked_after p (s.linked p lo hi);
    last = s.last;
    knows = on_change s w (Knows nodes from next) (clearing n) c out (λ v ne. s.knows v);
    one_bringer = λ v u m e f. one v u m (bringer v m e) (bringer u m f);
    one_linker = λ v u m e f. s.one_linker v u m (linked_by v m e) (linked_by u m f);
    stub_bringer = λ v e. elim_stub v (bringer v 0 e);
    outside = λ m o. s.outside m ((less m o).0);
    not_stub = λ m o. s.not_stub m ((less m o).0);
    not_brought = λ m v o e. not_brought_after m v o (bringer v m e);
  }
    where
      linked_by : (v m : ℕ) → links (new v) ≡ some m → links (old v) ≡ some m
      linked_by v m e = kept s w links (clearing n) v m c (inr refl) e

      linked_after : (p : ℕ) → Linked nodes next old p → Linked nodes next new p
      linked_after p (inl e) = inl e
      linked_after p (inr (e, (v, l))) = inr (e, (v, still s w v _ _ c (λ h. cc) l))

      bringer :
          (v m : ℕ) → brings (new v) ≡ some m → ((w ≡ v) × (n ≡ m)) ⊎ (brings (old v) ≡ some m)
      bringer v m e = elim (ℕ_discrete w v) [
        | yes same ↦
            inl (same, ground (arith, ap brings c.here, ap (λ (x : ℕ). brings (new x)) same))
        | no ne ↦ inr (sym (ap brings (c.others v ne)) ∙ e)
      ]

      one :
          (v u m : ℕ)
          → ((w ≡ v) × (n ≡ m)) ⊎ (brings (old v) ≡ some m)
          → ((w ≡ u) × (n ≡ m)) ⊎ (brings (old u) ≡ some m)
          → v ≡ u
      one v u m (inl (e, _)) (inl (f, _)) = sym e ∙ f
      one v u m (inl (_, e)) (inr f) = absurd (alone u (f ∙ ap some (sym e)))
      one v u m (inr e) (inl (_, f)) = absurd (alone v (e ∙ ap some (sym f)))
      one v u m (inr e) (inr f) = s.one_bringer v u m e f

      elim_stub : (v : ℕ) → ((w ≡ v) × (n ≡ 0)) ⊎ (brings (old v) ≡ some 0) → v ≡ 0
      elim_stub v (inl (e, z)) = sym e ∙ stub z
      elim_stub v (inr e) = s.stub_bringer v e

      not_brought_after :
          (m v : ℕ) → after m ≡ true → ((w ≡ v) × (n ≡ m)) ⊎ (brings (old v) ≡ some m) → ⊥
      not_brought_after m v o (inl (_, e)) = (less m o).1 e
      not_brought_after m v o (inr e) = s.not_brought m v ((less m o).0) e

-- The tail moves to the next node; its old node goes to the caller, unless it is the stub.
pub Chain-advanced :
    {next : ℕ → Option ℕ} {pushes : ℕ → Push} {nodes : List ℕ} {owned : ℕ → Bool} {from : ℕ}
    (s : Chain next pushes nodes owned from) (x : ℕ) (after : ℕ → Bool)
    → next (node_at nodes from) ≡ some x
    → ((m : ℕ)
        → after m ≡ true
        → (owned m ≡ true) ⊎ ((m ≡ node_at nodes from) × (node_at nodes from ≢ 0)))
    → (x ≡ node_at nodes (suc from)) × Chain next pushes nodes after (suc from)
Chain-advanced {next} {pushes} {nodes} {owned} {from} s x after e more = (
  value (s.linked from (omega arith) two),
  record {
    some_node = two;
    distinct = λ p q lo hi lo' hi' f. s.distinct p q (omega arith) hi (omega arith) hi' f;
    linked = λ p lo hi. s.linked p (omega arith) hi;
    last = s.last;
    knows = λ w. knows_after (pushes w) (s.knows w);
    one_bringer = s.one_bringer;
    one_linker = s.one_linker;
    stub_bringer = s.stub_bringer;
    outside = λ m o p lo hi f. outside_after m p lo hi f (more m o);
    not_stub = λ m o z. stub_after m z (more m o);
    not_brought = λ m v o f. brought_after m v f (more m o);
  },
)
  where
    two : suc from < length nodes
    two = elim (ℕ_discrete (suc from) (length nodes)) [
      | yes end ↦ absurd (ground (arith, s.last from end))
      | no ne ↦ omega (arith, s.some_node)
    ]

    value : Linked nodes next pushes from → x ≡ node_at nodes (suc from)
    value (inl l) = ground arith
    value (inr (l, _)) = absurd (ground arith)

    knows_after : (p : Push) → Knows nodes from next p → Knows nodes (suc from) next p
    knows_after done k = tt
    knows_after (clearing m) k = λ p lo hi f. k p (omega arith) hi f
    knows_after (exchanging m) (o, z) = (λ p lo hi f. o p (omega arith) hi f, z)
    knows_after (linking a m) (p, lo, hi, f, g, z) = elim (ℕ_discrete p from) [
      | yes same ↦ absurd (none-ne-some (sym z ∙ ap next (f ∙ ap (node_at nodes) same) ∙ e))
      | no ne ↦ (p, omega arith, hi, f, g, z)
    ]
      where
        none-ne-some : {y : ℕ} → ¬ (none ≡ some y)
        none-ne-some q = cc

    outside_after :
        (m p : ℕ)
        → suc from ≤ p
        → p < length nodes
        → node_at nodes p ≡ m
        → (owned m ≡ true) ⊎ ((m ≡ node_at nodes from) × (node_at nodes from ≢ 0))
        → ⊥
    outside_after m p lo hi f (inl o) = s.outside m o p (omega arith) hi f
    outside_after m p lo hi f (inr (g, _)) =
        absurd (omega (arith, s.distinct p from (omega arith) hi (omega arith) s.some_node (f ∙ g)))

    stub_after :
        (m : ℕ)
        → m ≡ 0
        → (owned m ≡ true) ⊎ ((m ≡ node_at nodes from) × (node_at nodes from ≢ 0))
        → ⊥
    stub_after m z (inl o) = s.not_stub m o z
    stub_after m z (inr (g, ne)) = ne (sym g ∙ z)

    in_queue :
        (m : ℕ) (p : Push)
        → m ≡ node_at nodes from
        → brings p ≡ some m
        → Knows nodes from next p
        → ⊥
    in_queue m (clearing n) g b k = k from (omega arith) s.some_node (sym g ∙ ground arith)
    in_queue m (exchanging n) g b (k, _) = k from (omega arith) s.some_node (sym g ∙ ground arith)
    in_queue m done g b k = cc
    in_queue m (linking a n) g b k = cc

    brought_after :
        (m v : ℕ)
        → brings (pushes v) ≡ some m
        → (owned m ≡ true) ⊎ ((m ≡ node_at nodes from) × (node_at nodes from ≢ 0))
        → ⊥
    brought_after m v b (inl o) = s.not_brought m v o b
    brought_after m v b (inr (g, _)) = in_queue m (pushes v) g b (s.knows v)

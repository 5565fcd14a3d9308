-- ===== src/Mpsc/Linked/Pushes.antt =====
-- A change of one push of a linked queue: what stays true of the others, and the store that clears a
-- node.
use shclog.Prelude.{
  ℕ, ◌≤◌, ◌<◌, ◌≡◌, ◌≢◌, ◌⊎◌, inl, inr, sym, ◌∙◌, ap, refl, subst, Bool, Option, none, some, List,
  length, arith, ◌==◌, if◌then◌else◌, ℕ_discrete,
}
use shclog.Mpsc.Linked.{Push, done, clearing, exchanging, linking}
use shclog.Mpsc.Linked.Chain.{node_at, brings, links, Outside, Knows, Linked, Chain}

-- One thread's push changes.
pub record Changed (old new : ℕ → Push) (w : ℕ) (p : Push) : Type 0 where
  pub here : new w ≡ p
  pub others : (v : ℕ) → w ≢ v → new v ≡ old v

abbrev pub write : (ℕ → Option ℕ) → ℕ → Option ℕ → ℕ → Option ℕ
write next n x m = if n == m then x else next m

pub write_self : (next : ℕ → Option ℕ) (n : ℕ) (x : Option ℕ) → write next n x n ≡ x
write_self next n x = ground arith

pub write_other : (next : ℕ → Option ℕ) (n m : ℕ) (x : Option ℕ) → n ≢ m → write next n x m ≡ next m
write_other next n m x ne = ground arith

module _ {next : ℕ → Option ℕ} {old new : ℕ → Push} {nodes : List ℕ} {owned : ℕ → Bool} {from : ℕ}
    (s : Chain next old nodes owned from) (w : ℕ) where
  -- A fact about every push, from that about the changed one and those about the others.
  pub on_change :
      (P : Push → Type 0) (p : Push)
      → Changed old new w p
      → P p
      → ((v : ℕ) → w ≢ v → P (old v))
      → (v : ℕ) → P (new v)
  on_change P p c now others v = elim (ℕ_discrete w v) [
    | yes e ↦ subst P (sym c.here ∙ ap new e) now
    | no ne ↦ subst P (sym (c.others v ne)) (others v ne)
  ]

  -- A changed push that has a node had it before.
  pub kept :
      (f : Push → Option ℕ) (p : Push) (v n : ℕ)
      → Changed old new w p
      → (f p ≡ f (old w)) ⊎ (f p ≡ none)
      → f (new v) ≡ some n
      → f (old v) ≡ some n
  kept f p v n c k e = elim (ℕ_discrete w v) [
    | yes same ↦ same_thread k same
    | no ne ↦ sym (ap f (c.others v ne)) ∙ e
  ]
    where
      now : w ≡ v → f p ≡ some n
      now same = sym (ap f c.here) ∙ ap (λ (x : ℕ). f (new x)) same ∙ e

      same_thread : (f p ≡ f (old w)) ⊎ (f p ≡ none) → w ≡ v → f (old v) ≡ some n
      same_thread (inl h) same = ap (λ (x : ℕ). f (old x)) (sym same) ∙ sym h ∙ now same
      same_thread (inr h) same = absurd (ground (arith, now same))

  -- A push of another thread goes on linking.
  pub still :
      {p : Push} (v a b : ℕ)
      → Changed old new w p
      → old w ≢ linking a b
      → old v ≡ linking a b
      → new v ≡ linking a b
  still v a b c ne l = c.others v (λ same. ne (ap old same ∙ l)) ∙ l

  -- `n->next = nullptr`
  pub Chain-cleared :
      (n : ℕ)
      → old w ≡ clearing n
      → Changed old new w (exchanging n)
      → Chain (write next n none) new nodes owned from
  Chain-cleared n at c = record {
    some_node = s.some_node;
    distinct = s.distinct;
    linked = λ p lo hi. linked_after p (apart p lo (omega arith)) (s.linked p lo hi);
    last = λ p e. apart p (omega (arith, s.some_node)) (omega arith) ∙ s.last p e;
    knows =
        on_change (Knows nodes from (write next n none)) (exchanging n) c
          (mine, write_self next n none) (λ v ne. knows_after (old v) (s.knows v));
    one_bringer = λ v u m e f. s.one_bringer v u m (brought v m e) (brought u m f);
    one_linker = λ v u m e f. s.one_linker v u m (linked_by v m e) (linked_by u m f);
    stub_bringer = λ v e. s.stub_bringer v (brought v 0 e);
    outside = s.outside;
    not_stub = s.not_stub;
    not_brought = λ m v o e. s.not_brought m v o (brought v m e);
  }
    where
      mine : Outside nodes from n
      mine = subst (Knows nodes from next) at (s.knows w)

      apart :
          (p : ℕ)
          → from ≤ p
          → p < length nodes
          → write next n none (node_at nodes p) ≡ next (node_at nodes p)
      apart p lo hi = write_other next n (node_at nodes p) none (λ e. mine p lo hi (sym e))

      brought : (v m : ℕ) → brings (new v) ≡ some m → brings (old v) ≡ some m
      brought v m e = kept brings (exchanging n) v m c (inl (sym (ap brings at))) e

      linked_by : (v m : ℕ) → links (new v) ≡ some m → links (old v) ≡ some m
      linked_by v m e = kept links (exchanging n) v m c (inr refl) e

      linked_after :
          (p : ℕ)
          → write next n none (node_at nodes p) ≡ next (node_at nodes p)
          → Linked nodes next old p
          → Linked nodes (write next n none) new p
      linked_after p same (inl e) = inl (same ∙ e)
      linked_after p same (inr (e, (v, l))) = inr (same ∙ e, (v, still v _ _ c (λ h. cc) l))

      cleared : (m : ℕ) → next m ≡ none → write next n none m ≡ none
      cleared m e = ground arith

      knows_after : (p : Push) → Knows nodes from next p → Knows nodes from (write next n none) p
      knows_after done k = tt
      knows_after (clearing m) k = k
      knows_after (exchanging m) (o, e) = (o, cleared m e)
      knows_after (linking prev m) (p, lo, hi, e, f, g) = (p, lo, hi, e, f, cleared prev g)

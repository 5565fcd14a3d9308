-- ===== src/Mpsc/Linked/Links.antt =====
-- The store that links a node keeps the chain of a linked queue.
use shclog.Prelude.{
  ℕ, suc, ◌≤◌, ◌<◌, ◌≡◌, ◌≢◌, inl, inr, sym, ◌∙◌, ap, refl, subst, Bool, Option, some, List, length,
  arith, ℕ_discrete,
}
use shclog.Mpsc.Linked.{Push, done, clearing, exchanging, linking}
use shclog.Mpsc.Linked.Chain.{node_at, brings, links, Knows, Linked, Chain}
use shclog.Mpsc.Linked.Pushes.{write, write_self, write_other, on_change, kept, still}
use shclog.Mpsc.Linked.Pushes.{Changed}

module _ {next : ℕ → Option ℕ} {old new : ℕ → Push} {nodes : List ℕ} {owned : ℕ → Bool} {from : ℕ}
    (s : Chain next old nodes owned from) (w : ℕ) where
  -- `prev->next.store(n)`
  pub Chain-linked :
      (prev n : ℕ)
      → old w ≡ linking prev n
      → Changed old new w done
      → Chain (write next prev (some n)) new nodes owned from
  Chain-linked prev n at c = record {
    some_node = s.some_node;
    distinct = s.distinct;
    linked = λ p lo hi. elim (ℕ_discrete p mine.0) [
      | yes e ↦ inl (now p e)
      | no ne ↦ linked_other p lo hi ne (s.linked p lo hi)
    ];
    last = λ p e.
        other p (omega (arith, s.some_node)) (omega arith) (omega (arith, mine.2)) ∙ s.last p e;
    knows =
        on_change s w (Knows nodes from (write next prev (some n))) done c tt
          (λ v ne. knows_after (old v) (λ m e. not_prev v m ne e) (s.knows v));
    one_bringer = λ v u m e f. s.one_bringer v u m (brought v m e) (brought u m f);
    one_linker = λ v u m e f. s.one_linker v u m (linked_by v m e) (linked_by u m f);
    stub_bringer = λ v e. s.stub_bringer v (brought v 0 e);
    outside = s.outside;
    not_stub = s.not_stub;
    not_brought = λ m v o e. s.not_brought m v o (brought v m e);
  }
    where
      mine : Knows nodes from next (linking prev n)
      mine = subst (Knows nodes from next) at (s.knows w)

      brought : (v m : ℕ) → brings (new v) ≡ some m → brings (old v) ≡ some m
      brought v m e = kept s w brings done v m c (inr refl) e

      linked_by : (v m : ℕ) → links (new v) ≡ some m → links (old v) ≡ some m
      linked_by v m e = kept s w links done v m c (inr refl) e

      not_prev : (v m : ℕ) → w ≢ v → links (old v) ≡ some m → prev ≢ m
      not_prev v m ne e same = ne (s.one_linker w v m (ap links at ∙ ap some same) e)

      now :
          (p : ℕ)
          → p ≡ mine.0
          → write next prev (some n) (node_at nodes p) ≡ some (node_at nodes (suc p))
      now p e =
          ap (write next prev (some n)) (ap (node_at nodes) e ∙ sym mine.3)
          ∙ write_self next prev (some n)
          ∙ ap some (mine.4 ∙ ap (λ (x : ℕ). node_at nodes (suc x)) (sym e))

      apart : (p : ℕ) → from ≤ p → p < length nodes → p ≢ mine.0 → prev ≢ node_at nodes p
      apart p lo hi ne e =
          ne (s.distinct p mine.0 lo hi mine.1 (omega (arith, mine.2)) (sym e ∙ mine.3))

      other :
          (p : ℕ)
          → from ≤ p
          → p < length nodes
          → p ≢ mine.0
          → write next prev (some n) (node_at nodes p) ≡ next (node_at nodes p)
      other p lo hi ne = write_other next prev (node_at nodes p) (some n) (apart p lo hi ne)

      linked_other :
          (p : ℕ)
          → from ≤ p
          → suc p < length nodes
          → p ≢ mine.0
          → Linked nodes next old p
          → Linked nodes (write next prev (some n)) new p
      linked_other p lo hi ne (inl e) = inl (other p lo (omega arith) ne ∙ e)
      linked_other p lo hi ne (inr (e, (v, l))) = inr (
        other p lo (omega arith) ne ∙ e,
        (v, still s w v _ _ c (λ h. apart p lo (omega arith) ne (prev_eq (sym at ∙ h))) l),
      )
        where
          prev_eq : {a b : ℕ} → linking prev n ≡ linking a b → prev ≡ a
          prev_eq e = ground arith

      knows_after :
          (p : Push)
          → ((m : ℕ) → links p ≡ some m → prev ≢ m)
          → Knows nodes from next p
          → Knows nodes from (write next prev (some n)) p
      knows_after done ne k = tt
      knows_after (clearing m) ne k = k
      knows_after (exchanging m) ne (o, e) = (
        o,
        write_other next prev m (some n)
              (λ same. o mine.0 mine.1 (omega (arith, mine.2)) (sym mine.3 ∙ same))
            ∙ e,
      )
      knows_after (linking a m) ne (p, lo, hi, e, f, g) =
          (p, lo, hi, e, f, write_other next prev a (some n) (ne a refl) ∙ g)

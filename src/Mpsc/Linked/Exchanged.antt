-- ===== src/Mpsc/Linked/Exchanged.antt =====
-- The exchange of the head of a linked queue keeps the chain.
use shclog.Prelude.{
  ℕ, suc, ◌≤◌, ◌<◌, ◌≡◌, ◌≢◌, ◌⊎◌, inl, inr, sym, ◌∙◌, ap, ap₂, refl, subst, Bool, Option, none,
  some, List, [], ◌∷◌, ◌++◌, length, arith, ℕ_discrete, length-append, get_or-append_lt,
  get_or-append_at,
}
use shclog.Mpsc.Linked.{Push, done, clearing, exchanging, linking}
use shclog.Mpsc.Linked.Chain.{node_at, brings, links, Outside, Knows, Linked, Chain}
use shclog.Mpsc.Linked.Pushes.{Changed, on_change, kept, still}

module _ {next : ℕ → Option ℕ} {old new : ℕ → Push} {nodes : List ℕ} {owned : ℕ → Bool} {from : ℕ}
    (s : Chain next old nodes owned from) (w : ℕ) where
  -- The node becomes the head; the push has (still s w) to link it.
  pub Chain-exchanged :
      (n h prev : ℕ)
      → old w ≡ exchanging n
      → suc h ≡ length nodes
      → prev ≡ node_at nodes h
      → Changed old new w (linking prev n)
      → Chain next new (nodes ++ (n ∷ [])) owned from
  Chain-exchanged n h prev at end here c = record {
    some_node = omega (arith, s.some_node, longer);
    distinct = λ p q lo hi lo' hi' e. distinct_after p q lo hi lo' hi' e;
    linked = λ p lo hi. elim (ℕ_discrete (suc p) (length nodes)) [
      | yes e ↦ inr (
        ap next (sym (old_node p (omega arith))) ∙ s.last p e,
        (w, c.here ∙ ap₂ linking (prev_at p e) (new_node (suc p) e)),
      )
      | no ne ↦ linked_after p (omega (arith, longer)) (s.linked p lo (omega (arith, longer)))
    ];
    last = λ p e. ap next (sym (new_node p (omega (arith, longer)))) ∙ mine.1;
    knows =
        (on_change s w) (Knows (nodes ++ (n ∷ [])) from next) (linking prev n) c
          (
            h,
            omega (arith, s.some_node),
            omega (arith, longer),
            here ∙ old_node h (omega arith),
            new_node (suc h) end,
            ap next here ∙ s.last h end,
          )
          (λ v ne. knows_after (old v) (λ m e. other_node v m ne e) (s.knows v));
    one_bringer = λ v u m e f. s.one_bringer v u m (brought v m e) (brought u m f);
    one_linker = λ v u m e f. one v u m (linker v m e) (linker u m f);
    stub_bringer = λ v e. s.stub_bringer v (brought v 0 e);
    outside = λ m o.
        longer_outside m (λ e. s.not_brought m w o (ap brings at ∙ ap some e)) (s.outside m o);
    not_stub = s.not_stub;
    not_brought = λ m v o e. s.not_brought m v o (brought v m e);
  }
    where
      mine : Outside nodes from n × (next n ≡ none)
      mine = subst (Knows nodes from next) at (s.knows w)

      longer : length (nodes ++ (n ∷ [])) ≡ suc (length nodes)
      longer = omega (arith, length-append nodes (n ∷ []))

      old_node : (p : ℕ) → p < length nodes → node_at nodes p ≡ node_at (nodes ++ (n ∷ [])) p
      old_node p l = sym (get_or-append_lt nodes (n ∷ []) p 0 l)

      new_node : (p : ℕ) → p ≡ length nodes → n ≡ node_at (nodes ++ (n ∷ [])) p
      new_node p e = sym (get_or-append_at nodes n 0 [] p e)

      brought : (v m : ℕ) → brings (new v) ≡ some m → brings (old v) ≡ some m
      brought v m e = (kept s w) brings (linking prev n) v m c (inr refl) e

      other_node : (v m : ℕ) → w ≢ v → brings (old v) ≡ some m → n ≢ m
      other_node v m ne e same = ne (s.one_bringer w v m (ap brings at ∙ ap some same) e)

      longer_outside : (m : ℕ) → n ≢ m → Outside nodes from m → Outside (nodes ++ (n ∷ [])) from m
      longer_outside m ne o p lo hi e = elim (ℕ_discrete p (length nodes)) [
        | yes end' ↦ ne (new_node p end' ∙ e)
        | no before ↦ o p lo (omega (arith, longer)) (old_node p (omega (arith, longer)) ∙ e)
      ]

      knows_after :
          (p : Push)
          → ((m : ℕ) → brings p ≡ some m → n ≢ m)
          → Knows nodes from next p
          → Knows (nodes ++ (n ∷ [])) from next p
      knows_after done ne k = tt
      knows_after (clearing m) ne k = longer_outside m (ne m refl) k
      knows_after (exchanging m) ne (o, e) = (longer_outside m (ne m refl) o, e)
      knows_after (linking a m) ne (p, lo, hi, e, f, g) =
          (p, lo, omega (arith, longer), e ∙ old_node p (omega arith), f ∙ old_node (suc p) hi, g)

      distinct_after :
          (p q : ℕ)
          → from ≤ p
          → p < length (nodes ++ (n ∷ []))
          → from ≤ q
          → q < length (nodes ++ (n ∷ []))
          → node_at (nodes ++ (n ∷ [])) p ≡ node_at (nodes ++ (n ∷ [])) q
          → p ≡ q
      distinct_after p q lo hi lo' hi' e = elim (ℕ_discrete p (length nodes)) [
        | yes ep ↦ elim (ℕ_discrete q (length nodes)) [
          | yes eq ↦ ep ∙ sym eq
          | no nq ↦ absurd (
              mine.0 q lo' (omega (arith, longer))
                (old_node q (omega (arith, longer)) ∙ sym e ∙ sym (new_node p ep)))
        ]
        | no np ↦ elim (ℕ_discrete q (length nodes)) [
          | yes eq ↦ absurd (
              mine.0 p lo (omega (arith, longer))
                (old_node p (omega (arith, longer)) ∙ e ∙ sym (new_node q eq)))
          | no nq ↦
              s.distinct p q lo (omega (arith, longer)) lo' (omega (arith, longer))
                (old_node p (omega (arith, longer)) ∙ e ∙ sym (old_node q (omega (arith, longer))))
        ]
      ]

      prev_at : (p : ℕ) → suc p ≡ length nodes → prev ≡ node_at (nodes ++ (n ∷ [])) p
      prev_at p e =
          here ∙ ap (λ (x : ℕ). node_at nodes x) {y = p} (omega arith) ∙ old_node p (omega arith)

      linked_after :
          (p : ℕ)
          → suc p < length nodes
          → Linked nodes next old p
          → Linked (nodes ++ (n ∷ [])) next new p
      linked_after p l (inl e) =
          inl (ap next (sym (old_node p (omega arith))) ∙ e ∙ ap some (old_node (suc p) l))
      linked_after p l (inr (e, (v, k))) = inr (
        ap next (sym (old_node p (omega arith))) ∙ e,
        (
          v,
          (still s w) v _ _ c (λ x. cc) k
              ∙ ap₂ linking (old_node p (omega arith)) (old_node (suc p) l),
        ),
      )

      linker :
          (v m : ℕ) → links (new v) ≡ some m → ((w ≡ v) × (prev ≡ m)) ⊎ (links (old v) ≡ some m)
      linker v m e = elim (ℕ_discrete w v) [
        | yes same ↦ inl (same, ground (arith, ap links c.here, ap (λ (x : ℕ). links (new x)) same))
        | no ne ↦ inr (sym (ap links (c.others v ne)) ∙ e)
      ]

      not_prev : (p : Push) (m : ℕ) → Knows nodes from next p → links p ≡ some m → prev ≢ m
      not_prev done m k e f = cc
      not_prev (clearing x) m k e f = cc
      not_prev (exchanging x) m k e f = cc
      not_prev (linking a x) m (p, lo, hi, ea, _, _) e f = absurd (
          omega (
            arith,
            s.distinct p h lo (omega arith) (omega (arith, s.some_node)) (omega arith)
                (sym ea ∙ ground (arith) ∙ here),
          ))

      one :
          (v u m : ℕ)
          → ((w ≡ v) × (prev ≡ m)) ⊎ (links (old v) ≡ some m)
          → ((w ≡ u) × (prev ≡ m)) ⊎ (links (old u) ≡ some m)
          → v ≡ u
      one v u m (inl (e, _)) (inl (f, _)) = sym e ∙ f
      one v u m (inl (_, e)) (inr f) = absurd (not_prev (old u) m (s.knows u) f e)
      one v u m (inr e) (inl (_, f)) = absurd (not_prev (old v) m (s.knows v) e f)
      one v u m (inr e) (inr f) = s.one_linker v u m e f

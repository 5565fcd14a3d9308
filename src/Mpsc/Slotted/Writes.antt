-- ===== src/Mpsc/Slotted/Writes.antt =====
-- The store of an item into its cell of a slotted queue.
use shclog.Prelude.{
  ℕ, ◌+◌, ◌%◌, ◌≤◌, ◌<◌, ◌≡◌, ◌≢◌, inl, inr, sym, ap, subst, refl, ◌∙◌, some, List, arith,
  ℕ_discrete, Bool-cases, ◌==◌, ==_iff,
}
use shclog.Mpsc.Slotted.{
  Cell, Call, idle, taking, spinning, filling, marking, returned, Consumer, ready, reading, freeing,
  assign, put,
}
use shclog.Mpsc.Slotted.Inv.{
  seq_at, item_at, ticket_of, Mine, CellOf, ConsumerKnows, Served, Cells, same_cell,
}
use shclog.Mpsc.Slotted.Moves.{on_assign, ticket_kept}

pub put_self : (b : ℕ → Cell) (x y : ℕ) (d : Cell) → x ≡ y → put b x d y ≡ d
put_self b x y d e = rw ((==_iff x y).1 e) refl

pub put_other : (b : ℕ → Cell) (x y : ℕ) (d : Cell) → x ≢ y → put b x d y ≡ b y
put_other b x y d ne = elim (Bool-cases (x == y)) [
  | inl t ↦ absurd (ne ((==_iff x y).0 t))
  | inr f ↦ rw f refl
]

module _ {cap : ℕ} {b : ℕ → Cell} {calls : ℕ → Call} {c : Consumer} {tickets : List ℕ} {from : ℕ}
    (s : Cells cap b calls c tickets from) (i pos v : ℕ) where
  -- the cells after `slot->data = v`
  abbrev filled : ℕ → Cell
  filled = put b (pos % cap) (record (b (pos % cap)) { item = some v })

  filled-seq : (p : ℕ) → seq_at filled cap p ≡ seq_at b cap p
  filled-seq p = elim (ℕ_discrete (pos % cap) (p % cap)) [
    | yes e ↦
        ap (λ (d : Cell). d.seq) (put_self b (pos % cap) (p % cap) _ e)
        ∙ ap (λ (t : ℕ). (b t).seq) e
    | no ne ↦ ap (λ (d : Cell). d.seq) (put_other b (pos % cap) (p % cap) _ ne)
  ]

  filled-item :
      (p : ℕ) → p ≢ pos → p < pos + cap → pos < p + cap → item_at filled cap p ≡ item_at b cap p
  filled-item p ne l g =
      ap (λ (d : Cell). d.item)
        (put_other b (pos % cap) (p % cap) _ (λ e. ne (sym (same_cell cap pos p g l e))))

  -- The write of the item.
  pub Cells-filled :
      calls i ≡ filling pos v → Cells cap filled (assign calls i (marking pos v)) c tickets from
  Cells-filled at = record {
    wide = s.wide;
    order = s.order;
    cell = λ p lo hi. cell_after p lo hi (s.cell p lo hi);
    mine = λ j.
        on_assign (Mine cap from filled tickets) calls i j (marking pos v)
          (λ _. (
            mine_now.0,
            mine_now.1,
            mine_now.2,
            mine_now.3,
            ap (λ (d : Cell). d.item) (put_self b (pos % cap) (pos % cap) _ refl),
          ))
          (λ ne. mine_other (calls j) (apart j ne) (s.mine j));
    unmarked = λ j p h l. filled-seq p ∙ s.unmarked j p (sym (kept j) ∙ h) l;
    unique = λ j l p h g. s.unique j l p (sym (kept j) ∙ h) (sym (kept l) ∙ g);
    served = λ p lo hi. served_after p (s.served p lo hi);
    consumer = consumer_after c s.consumer;
  }
    where
      mine_now : Mine cap from b tickets (filling pos v)
      mine_now = subst (Mine cap from b tickets) at (s.mine i)

      kept : (j : ℕ) → ticket_of (assign calls i (marking pos v) j) ≡ ticket_of (calls j)
      kept j = ticket_kept s i (marking pos v) j (sym (ap ticket_of at))

      apart : (j : ℕ) → i ≢ j → (p : ℕ) → ticket_of (calls j) ≡ some p → p ≢ pos
      apart j ne p h e = ne (s.unique i j p (ap ticket_of at ∙ ap some (sym e)) h)

      mine_other :
          (d : Call)
          → ((p : ℕ) → ticket_of d ≡ some p → p ≢ pos)
          → Mine cap from b tickets d
          → Mine cap from filled tickets d
      mine_other (marking p w) ne (lo, hi, e, l, m) = (
        lo,
        hi,
        e,
        l,
        filled-item p (ne p refl) (omega (arith, mine_now)) (omega (arith, mine_now)) ∙ m,
      )
      mine_other (filling p w) ne m = m
      mine_other (spinning p w) ne m = m
      mine_other (taking w) ne m = tt
      mine_other idle ne m = tt
      mine_other returned ne m = tt

      cell_after :
          (p : ℕ) → from ≤ p → p < from + cap → CellOf cap b tickets p → CellOf cap filled tickets p
      cell_after p lo hi (inl w) = inl (filled-seq p ∙ w)
      cell_after p lo hi (inr (w, l, m)) = elim (ℕ_discrete p pos) [
        | yes e ↦ inl (filled-seq p ∙ s.unmarked i p (ap ticket_of at ∙ ap some (sym e)) hi)
        | no ne ↦ inr (
          filled-seq p ∙ w,
          l,
          filled-item p ne (omega (arith, mine_now)) (omega (arith, mine_now)) ∙ m,
        )
      ]

      served_after :
          (p : ℕ)
          → Served cap from b calls p
          → Served cap from filled (assign calls i (marking pos v)) p
      served_after p (inl (l, w)) = inl (l, filled-seq p ∙ w)
      served_after p (inr (j, h)) = inr (j, kept j ∙ h)

      consumer_after :
          (d : Consumer)
          → ConsumerKnows cap from b tickets d
          → ConsumerKnows cap from filled tickets d
      consumer_after ready m = tt
      consumer_after reading (l, w) = (l, filled-seq from ∙ w)
      consumer_after (freeing x) (l, w, m) = (l, filled-seq from ∙ w, m)

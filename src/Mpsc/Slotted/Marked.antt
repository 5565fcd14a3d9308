-- ===== src/Mpsc/Slotted/Marked.antt =====
-- The store of a sequence number that makes an item ready.
use shclog.Prelude.{
  ℕ, ◌+◌, ◌%◌, ◌≤◌, ◌<◌, ◌≡◌, ◌≢◌, inl, inr, sym, ap, subst, ◌∙◌, some, List, get_or, arith,
  ℕ_discrete,
}
use shclog.Mpsc.Slotted.{
  Cell, Call, idle, taking, spinning, filling, marking, returned, Consumer, ready, reading, freeing,
  assign, put,
}
use shclog.Mpsc.Slotted.Inv.{
  seq_at, item_at, ticket_of, Mine, CellOf, ConsumerKnows, Served, Cells, same_cell, Mine-range,
}
use shclog.Mpsc.Slotted.Moves.{on_assign}
use shclog.Mpsc.Slotted.Writes.{put_self, put_other}

module _ {cap : ℕ} {b : ℕ → Cell} {calls : ℕ → Call} {c : Consumer} {tickets : List ℕ} {from : ℕ}
    (s : Cells cap b calls c tickets from) (i pos v : ℕ) where
  -- the cells after `slot->seq.store(pos + 1)`
  abbrev marked : ℕ → Cell
  marked = put b (pos % cap) (record (b (pos % cap)) { seq = pos + 1 })

  marked-item : (p : ℕ) → item_at marked cap p ≡ item_at b cap p
  marked-item p = elim (ℕ_discrete (pos % cap) (p % cap)) [
    | yes e ↦
        ap (λ (d : Cell). d.item) (put_self b (pos % cap) (p % cap) _ e)
        ∙ ap (λ (t : ℕ). (b t).item) e
    | no ne ↦ ap (λ (d : Cell). d.item) (put_other b (pos % cap) (p % cap) _ ne)
  ]

  marked-seq :
      (p : ℕ) → p ≢ pos → p < pos + cap → pos < p + cap → seq_at marked cap p ≡ seq_at b cap p
  marked-seq p ne l g =
      ap (λ (d : Cell). d.seq)
        (put_other b (pos % cap) (p % cap) _ (λ e. ne (sym (same_cell cap pos p g l e))))

  -- The mark, with which the call returns.
  pub Cells-marked :
      calls i ≡ marking pos v → Cells cap marked (assign calls i returned) c tickets from
  Cells-marked at = record {
    wide = s.wide;
    order = s.order;
    cell = λ p lo hi. cell_after p lo hi (s.cell p lo hi);
    mine = λ j.
        on_assign (Mine cap from marked tickets) calls i j returned (λ _. tt)
          (λ _. mine_other (calls j) (s.mine j));
    unmarked = λ j p h l. unmarked_after j p l (before j p h);
    unique = λ j l p h g. s.unique j l p (before j p h).1 (before l p g).1;
    served = λ p lo hi. served_after p lo (s.served p lo hi);
    consumer = consumer_after c s.consumer;
  }
    where
      mine_now : Mine cap from b tickets (marking pos v)
      mine_now = subst (Mine cap from b tickets) at (s.mine i)

      mine_other : (d : Call) → Mine cap from b tickets d → Mine cap from marked tickets d
      mine_other (marking p w) (lo, hi, e, l, m) = (lo, hi, e, l, marked-item p ∙ m)
      mine_other (filling p w) m = m
      mine_other (spinning p w) m = m
      mine_other (taking w) m = tt
      mine_other idle m = tt
      mine_other returned m = tt

      before :
          (j p : ℕ)
          → ticket_of (assign calls i returned j) ≡ some p
          → (i ≢ j) × (ticket_of (calls j) ≡ some p)
      before j p h = elim (ℕ_discrete i j) [
        | yes same ↦ ground arith
        | no other ↦ (other, ground arith)
      ]

      now : (p : ℕ) → p ≡ pos → seq_at marked cap p ≡ p + 1
      now p e =
          ap (λ (d : Cell). d.seq)
            (put_self b (pos % cap) (p % cap) _ (ap (λ (t : ℕ). t % cap) (sym e)))
          ∙ ap (λ (t : ℕ). t + 1) (sym e)

      cell_after :
          (p : ℕ) → from ≤ p → p < from + cap → CellOf cap b tickets p → CellOf cap marked tickets p
      cell_after p lo hi old = elim (ℕ_discrete p pos) [
        | yes e ↦ inr (
          now p e,
          omega (arith, mine_now),
          marked-item p
              ∙ ap (λ (t : ℕ). item_at b cap t) e
              ∙ mine_now.4
              ∙ ap some (mine_now.2 ∙ ap (λ (t : ℕ). get_or tickets t 0) (sym e)),
        )
        | no ne ↦
            cell_other p (marked-seq p ne (omega (arith, mine_now)) (omega (arith, mine_now))) old
      ]
        where
          cell_other :
              (p : ℕ)
              → seq_at marked cap p ≡ seq_at b cap p
              → CellOf cap b tickets p
              → CellOf cap marked tickets p
          cell_other p e (inl w) = inl (e ∙ w)
          cell_other p e (inr (w, l, m)) = inr (e ∙ w, l, marked-item p ∙ m)

      unmarked_after :
          (j p : ℕ)
          → p < from + cap
          → (i ≢ j) × (ticket_of (calls j) ≡ some p)
          → seq_at marked cap p ≡ p
      unmarked_after j p l (ne, h) =
          let known = Mine-range cap from b tickets (calls j) p (s.mine j) h in
          marked-seq p (λ e. ne (s.unique i j p (ap ticket_of at ∙ ap some (sym e)) h))
            (omega (arith, mine_now)) (omega (arith, mine_now))
          ∙ s.unmarked j p h l

      served_after :
          (p : ℕ)
          → from ≤ p
          → Served cap from b calls p
          → Served cap from marked (assign calls i returned) p
      served_after p lo old = elim (ℕ_discrete p pos) [
        | yes e ↦ inl (omega (arith, mine_now), now p e)
        | no ne ↦ served_other p lo ne old
      ]
        where
          served_other :
              (p : ℕ)
              → from ≤ p
              → p ≢ pos
              → Served cap from b calls p
              → Served cap from marked (assign calls i returned) p
          served_other p lo ne (inl (l, w)) =
              inl (l, marked-seq p ne (omega (arith, mine_now)) (omega (arith, mine_now)) ∙ w)
          served_other p lo ne (inr (j, h)) = inr (j, ground arith)

      not_oldest : seq_at b cap from ≡ from + 1 → from ≢ pos
      not_oldest w e = ground (
        arith,
        s.unmarked i pos (ap ticket_of at) (omega (arith, mine_now)),
        ap (λ (t : ℕ). seq_at b cap t) e,
      )

      oldest_kept : seq_at b cap from ≡ from + 1 → seq_at marked cap from ≡ from + 1
      oldest_kept w =
          marked-seq from (not_oldest w) (omega (arith, mine_now, s.wide)) (omega (arith, mine_now))
          ∙ w

      consumer_after :
          (d : Consumer)
          → ConsumerKnows cap from b tickets d
          → ConsumerKnows cap from marked tickets d
      consumer_after ready m = tt
      consumer_after reading (l, w) = (l, oldest_kept w)
      consumer_after (freeing x) (l, w, m) = (l, oldest_kept w, m)

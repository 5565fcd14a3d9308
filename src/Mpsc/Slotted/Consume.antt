-- ===== src/Mpsc/Slotted/Consume.antt =====
-- The accesses of the consumer keep what is known of the cells.
use shclog.Prelude.{
  ℕ, ◌+◌, ◌%◌, ◌≤◌, ◌<◌, ◌≡◌, inl, inr, sym, ap, refl, ◌∙◌, some, List, length, get_or, arith,
  ℕ_discrete,
}
use native.Mathlib.Nat.{add-mod_right}
use shclog.Mpsc.Slotted.{
  Cell, Call, idle, taking, spinning, filling, marking, returned, Consumer, ready, put,
}
use shclog.Mpsc.Slotted.Inv.{
  seq_at, item_at, ticket_of, Mine, CellOf, ConsumerKnows, Served, Cells, same_cell, Mine-range,
}
use shclog.Mpsc.Slotted.Writes.{put_self, put_other}

module _ {cap : ℕ} {b : ℕ → Cell} {calls : ℕ → Call} {c : Consumer} {tickets : List ℕ} {from : ℕ}
    (s : Cells cap b calls c tickets from) where
  -- The consumer moves on and the cells stay.
  pub Cells-consumer :
      (d : Consumer) → ConsumerKnows cap from b tickets d → Cells cap b calls d tickets from
  Cells-consumer d m = record {
    wide = s.wide;
    order = s.order;
    cell = s.cell;
    mine = s.mine;
    unmarked = s.unmarked;
    unique = s.unique;
    served = s.served;
    consumer = m;
  }

  -- The oldest cell waits for its ticket, or has its item.
  pub oldest : CellOf cap b tickets from
  oldest = s.cell from (omega arith) (omega (arith, s.wide))

  oldest_item_of :
      seq_at b cap from ≡ from + 1
      → CellOf cap b tickets from
      → item_at b cap from ≡ some (get_or tickets from 0)
  oldest_item_of w (inl e) = absurd (omega arith)
  oldest_item_of w (inr (_, _, m)) = m

  pub oldest_item : seq_at b cap from ≡ from + 1 → item_at b cap from ≡ some (get_or tickets from 0)
  oldest_item w = oldest_item_of w oldest

  -- the cells after `slot->seq.store(tail + N)`
  abbrev freed : ℕ → Cell
  freed = put b (from % cap) (record (b (from % cap)) { seq = from + cap })

  freed-other : (p : ℕ) → from < p → p < from + cap → freed (p % cap) ≡ b (p % cap)
  freed-other p lo hi =
      put_other b (from % cap) (p % cap) _
        (λ e. absurd (omega (arith, same_cell cap from p (omega arith) hi e)))

  freed-next : seq_at freed cap (from + cap) ≡ from + cap
  freed-next =
      ap (λ (d : Cell). d.seq)
        (put_self b (from % cap) ((from + cap) % cap) _ (sym (add-mod_right from cap)))

  -- The oldest cell is freed for the ticket `cap` later.
  pub Cells-freed :
      from < length tickets
      → seq_at b cap from ≡ from + 1
      → Cells cap freed calls ready tickets (from + 1)
  Cells-freed l w = record {
    wide = s.wide;
    order = omega arith;
    cell = cell_after;
    mine = λ j. mine_after (calls j) (later j) (s.mine j);
    unmarked = unmarked_after;
    unique = s.unique;
    served = λ p lo hi. served_after p lo (s.served p (omega arith) hi);
    consumer = tt;
  }
    where
      seq_kept : (p : ℕ) → from < p → p < from + cap → seq_at freed cap p ≡ seq_at b cap p
      seq_kept p lo hi = ap (λ (d : Cell). d.seq) (freed-other p lo hi)

      item_kept : (p : ℕ) → from < p → p < from + cap → item_at freed cap p ≡ item_at b cap p
      item_kept p lo hi = ap (λ (d : Cell). d.item) (freed-other p lo hi)

      last_seq : (p : ℕ) → p ≡ from + cap → seq_at freed cap p ≡ p
      last_seq p e = ap (λ (t : ℕ). seq_at freed cap t) e ∙ freed-next ∙ sym e

      cell_kept :
          (p : ℕ) → from < p → p < from + cap → CellOf cap b tickets p → CellOf cap freed tickets p
      cell_kept p lo hi (inl e) = inl (seq_kept p lo hi ∙ e)
      cell_kept p lo hi (inr (e, g, m)) = inr (seq_kept p lo hi ∙ e, g, item_kept p lo hi ∙ m)

      cell_after : (p : ℕ) → from + 1 ≤ p → p < from + 1 + cap → CellOf cap freed tickets p
      cell_after p lo hi = elim (ℕ_discrete p (from + cap)) [
        | yes e ↦ inl (last_seq p e)
        | no ne ↦ cell_kept p (omega arith) (omega arith) (s.cell p (omega arith) (omega arith))
      ]

      -- No call has the ticket of the item that is returned.
      later : (j p : ℕ) → ticket_of (calls j) ≡ some p → from < p
      later j p h = elim (ℕ_discrete p from) [
        | yes e ↦ absurd (
            omega
              (arith, s.unmarked j p h (omega (arith, s.wide)), ap (λ (t : ℕ). seq_at b cap t) e))
        | no ne ↦ omega (arith, (Mine-range cap from b tickets (calls j) p (s.mine j) h).0)
      ]

      mine_after :
          (d : Call)
          → ((p : ℕ) → ticket_of d ≡ some p → from < p)
          → Mine cap from b tickets d
          → Mine cap (from + 1) freed tickets d
      mine_after (marking p x) lt (lo, hi, e, g, m) =
          (omega (arith, lt p refl), hi, e, omega arith, item_kept p (lt p refl) g ∙ m)
      mine_after (filling p x) lt (lo, hi, e, g) = (omega (arith, lt p refl), hi, e, omega arith)
      mine_after (spinning p x) lt (lo, hi, e) = (omega (arith, lt p refl), hi, e)
      mine_after (taking x) lt m = tt
      mine_after idle lt m = tt
      mine_after returned lt m = tt

      unmarked_after :
          (j p : ℕ) → ticket_of (calls j) ≡ some p → p < from + 1 + cap → seq_at freed cap p ≡ p
      unmarked_after j p h g = elim (ℕ_discrete p (from + cap)) [
        | yes e ↦ last_seq p e
        | no ne ↦ seq_kept p (later j p h) (omega arith) ∙ s.unmarked j p h (omega arith)
      ]

      served_after :
          (p : ℕ) → from + 1 ≤ p → Served cap from b calls p → Served cap (from + 1) freed calls p
      served_after p lo (inl (g, e)) = inl (omega arith, seq_kept p (omega arith) g ∙ e)
      served_after p lo (inr h) = inr h

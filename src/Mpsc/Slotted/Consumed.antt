-- ===== src/Mpsc/Slotted/Consumed.antt =====
-- Every step of the consumer of a slotted queue keeps the invariant.
use shclog.Prelude.{
  ℕ, suc, ◌+◌, ◌%◌, ◌^◌, ◌<◌, ◌≡◌, inl, inr, sym, ap, ap₂, subst, ◌∙◌, Bool, true, false, none,
  some, List, [], ◌∷◌, ◌++◌, length, get_or, take, length-append, take-suc, arith, if◌then◌else◌,
  ltb,
}
use mathlib.Core.List.{append-nil}
use native.Mathlib.Nat.{mod-eq_of_lt}
use shclog.Mpsc.Slotted.{Consumer, ready, reading, freeing, put, lt_isize, index, consume, System}
use shclog.Mpsc.Slotted.Inv.{seq_at, CellOf, ConsumerKnows, Cells, Inv}
use shclog.Mpsc.Slotted.Consume.{Cells-consumer, oldest, oldest_item, Cells-freed}
use shclog.Mpsc.Slotted.Steps.{lt_isize_small, index_eq, consumed}

module _ {k : ℕ} {s : System} (inv : Inv k s) (room : length s.tickets + 2 ^ k < 2 ^ 63) where
  open inv use {head, tail, cells, fifo}

  -- An access that returns nothing.
  waiting :
      (c : Consumer)
      → ConsumerKnows (2 ^ k) (length s.given) s.queue.buffer s.tickets c
      → Inv k (record s { consumer = c; given = s.given ++ [] })
  waiting c m =
      subst (λ (xs : List ℕ). Inv k (record s { consumer = c; given = xs }))
        (sym (append-nil s.given))
        (record { head = head; tail = tail; cells = Cells-consumer cells c m; fifo = fifo })

  tail_index : index k s.queue.tail ≡ length s.given % 2 ^ k
  tail_index = ap (index k) tail ∙ sym ((index_eq inv room) (length s.given))

  seq_small :
      CellOf (2 ^ k) s.queue.buffer s.tickets (length s.given)
      → seq_at s.queue.buffer (2 ^ k) (length s.given) < 2 ^ 63
  seq_small (inl w) = omega (arith, cells.order, cells.wide)
  seq_small (inr (w, l, _)) = omega (arith, cells.wide)

  -- The test of `dequeue` tells whether the oldest cell still waits for its item.
  pub oldest_test :
      lt_isize (s.queue.buffer (index k s.queue.tail)).seq ((s.queue.tail + 1) % 2 ^ 64)
      ≡ ltb (seq_at s.queue.buffer (2 ^ k) (length s.given)) (length s.given + 1)
  oldest_test =
      ap₂ lt_isize (ap (λ (x : ℕ). (s.queue.buffer x).seq) tail_index) (
        ap (λ (t : ℕ). (t + 1) % 2 ^ 64) tail
        ∙ mod-eq_of_lt (omega (arith, cells.order, cells.wide)))
      ∙ lt_isize_small (seq_at s.queue.buffer (2 ^ k) (length s.given)) (length s.given + 1)
          (seq_small (oldest cells)) (omega (arith, cells.order, cells.wide))

  filled_cell :
      ltb (seq_at s.queue.buffer (2 ^ k) (length s.given)) (length s.given + 1) ≡ false
      → CellOf (2 ^ k) s.queue.buffer s.tickets (length s.given)
      → ConsumerKnows (2 ^ k) (length s.given) s.queue.buffer s.tickets reading
  filled_cell f (inl w) = absurd (ground arith)
  filled_cell f (inr (w, l, _)) = (l, w)

  ready_next :
      (t : Bool)
      → t ≡ ltb (seq_at s.queue.buffer (2 ^ k) (length s.given)) (length s.given + 1)
      → ConsumerKnows
          (2 ^ k)
          (length s.given)
          s.queue.buffer
          s.tickets
          (if t then ready else reading)
  ready_next true e = tt
  ready_next false e = filled_cell (sym e) (oldest cells)

  no_item : {x : ℕ} → ¬ (none ≡ some x)
  no_item e = cc

  Cells-freed_at :
      (x n f : ℕ)
      → length s.given % 2 ^ k ≡ x
      → length s.given + 2 ^ k ≡ n
      → length s.given + 1 ≡ f
      → length s.given < length s.tickets
      → seq_at s.queue.buffer (2 ^ k) (length s.given) ≡ length s.given + 1
      → Cells
          (2 ^ k)
          (put s.queue.buffer x (record (s.queue.buffer x) { seq = n }))
          s.calls
          ready
          s.tickets
          f
  Cells-freed_at x n f ex en ef l w =
      subst
        (λ (y : ℕ).
          Cells (2 ^ k) (put s.queue.buffer y (record (s.queue.buffer y) { seq = n })) s.calls ready
            s.tickets f)
        ex
        (subst
          (λ (m : ℕ).
            Cells (2 ^ k)
              (put s.queue.buffer (length s.given % 2 ^ k)
                (record (s.queue.buffer (length s.given % 2 ^ k)) { seq = m }))
              s.calls ready s.tickets f)
          en
          (subst
            (λ (g : ℕ).
              Cells (2 ^ k)
                (put s.queue.buffer (length s.given % 2 ^ k)
                  (record (s.queue.buffer (length s.given % 2 ^ k)) {
                    seq = length s.given + 2 ^ k;
                  }))
                s.calls ready s.tickets g)
            ef (Cells-freed cells l w)))

  pub consumed-Inv : (c : Consumer) → s.consumer ≡ c → Inv k ((consumed inv room) c)
  unfolding consume
  consumed-Inv ready at =
      waiting
        (if lt_isize (s.queue.buffer (index k s.queue.tail)).seq ((s.queue.tail + 1) % 2 ^ 64)
          then ready
          else reading)
        (ready_next _ oldest_test)
  consumed-Inv reading at =
      let (l, w) =
        subst (ConsumerKnows (2 ^ k) (length s.given) s.queue.buffer s.tickets) at cells.consumer in
      waiting (freeing (s.queue.buffer (index k s.queue.tail)).item)
        (l, w, ap (λ (x : ℕ). (s.queue.buffer x).item) tail_index ∙ oldest_item cells w)
  consumed-Inv (freeing none) at =
      let (l, w, m) =
        subst (ConsumerKnows (2 ^ k) (length s.given) s.queue.buffer s.tickets) at cells.consumer in
      absurd (no_item m)
  consumed-Inv (freeing (some v)) at =
      let (l, w, m) =
        subst (ConsumerKnows (2 ^ k) (length s.given) s.queue.buffer s.tickets) at cells.consumer in
      record {
        head = head;
        tail =
            ap (λ (t : ℕ). (t + 1) % 2 ^ 64) tail
            ∙ mod-eq_of_lt (omega (arith, cells.wide))
            ∙ longer v;
        cells =
            Cells-freed_at (index k s.queue.tail) ((s.queue.tail + 2 ^ k) % 2 ^ 64)
              (length (s.given ++ (v ∷ []))) (sym tail_index)
              (sym (
                ap (λ (t : ℕ). (t + 2 ^ k) % 2 ^ 64) tail
                ∙ mod-eq_of_lt (omega (arith, cells.wide))))
              (longer v) l w;
        fifo =
            ap₂ (λ xs x. xs ++ (x ∷ [])) fifo (item_eq m)
            ∙ sym (take-suc (length s.given) s.tickets 0 l)
            ∙ ap (λ (n : ℕ). take n s.tickets) (suc_eq ∙ longer v);
      }
    where
      item_eq :
          some v ≡ some (get_or s.tickets (length s.given) 0)
          → v ≡ get_or s.tickets (length s.given) 0
      item_eq e = ground arith

      suc_eq : suc (length s.given) ≡ length s.given + 1
      suc_eq = omega arith

      longer : (x : ℕ) → length s.given + 1 ≡ length (s.given ++ (x ∷ []))
      longer x = sym (length-append s.given (x ∷ []))

-- ===== src/Mpsc/Slotted/Safety.antt =====
-- What holds in every state that the threads of a slotted queue can reach.
use shclog.Prelude.{
  ℕ, ◌+◌, ◌%◌, ◌^◌, ◌≤◌, ◌<◌, ◌≡◌, ◌↔◌, inl, inr, refl, sym, ap, ◌∙◌, Bool, true, Option, none,
  some, List, ◌++◌, length, drop, take-append-drop, arith, ltb, ◌==◌, ==_iff, if◌then◌else◌,
  Bool-cases, bit_and-mask, dec_lt,
}
use shclog.Mpsc.Slotted.{
  Cell, Call, idle, taking, spinning, filling, marking, returned, Consumer, ready, reading, freeing,
  index, produce, consume, System, at_rest, Reach,
}
use shclog.Mpsc.Slotted.Inv.{seq_at, ticket_of, Mine, CellOf, ConsumerKnows, Served, same_cell}
use shclog.Mpsc.Slotted.Moves.{spin_hit}
use shclog.Mpsc.Slotted.Consume.{oldest}
use shclog.Mpsc.Slotted.Runs.{Reach-Inv}
use shclog.Mpsc.Slotted.Consumed.{oldest_test}

pub data Thread : Type 0 where
  producer : ℕ → Thread
  the_consumer : Thread

-- The cell whose pointer, a plain field, the next access of a call or of the consumer touches.
abbrev pub writes : ℕ → Call → Option ℕ
writes k (filling pos v) = some (index k pos)
writes k call = none

abbrev pub reads : ℕ → ℕ → Consumer → Option ℕ
reads k tail reading = some (index k tail)
reads k tail c = none

abbrev pub touches : ℕ → System → Thread → Option ℕ
touches k s (producer i) = writes k (s.calls i)
touches k s the_consumer = reads k s.queue.tail s.consumer

-- A write to a pointer is that of a call which holds the cell's ticket of the window.
abbrev Writer : ℕ → ℕ → List ℕ → Call → ℕ → Type 0
Writer k from tickets c x =
    (p : ℕ) × (ticket_of c ≡ some p) × (from ≤ p) × (p < from + 2 ^ k) × (p % 2 ^ k ≡ x)

writer :
    (k from : ℕ) (b : ℕ → Cell) (tickets : List ℕ) (c : Call) (x : ℕ)
    → Mine (2 ^ k) from b tickets c
    → writes k c ≡ some x
    → Writer k from tickets c x
writer k from b tickets (filling pos v) x m e =
    (pos, refl, m.0, m.3, ground (arith, bit_and-mask pos k))
writer k from b tickets idle x m e = absurd (cc)
writer k from b tickets (taking v) x m e = absurd (cc)
writer k from b tickets (spinning pos v) x m e = absurd (cc)
writer k from b tickets (marking pos v) x m e = absurd (cc)
writer k from b tickets returned x m e = absurd (cc)

module _ {k : ℕ} {s : System} (h : 1 ≤ k) (room : length s.tickets + 2 ^ k < 2 ^ 63)
    (r : Reach k s) where
  open (Reach-Inv h room r) use {head, tail, cells, fifo}

  -- With at least two cells and fewer than 2^63 - 2^k tickets, in every reachable state the consumer
  -- has returned exactly the first items to which tickets were given, in ticket order.
  pub slotted_order : (rest : List ℕ) × (s.tickets ≡ s.given ++ rest)
  slotted_order = (
    drop (length s.given) s.tickets,
    sym (take-append-drop (length s.given) s.tickets)
        ∙ ap (λ xs. xs ++ drop (length s.given) s.tickets) (sym fifo),
  )

  -- In such a state a producer finds its cell's mark equal to its ticket, and leaves the loop, exactly
  -- when fewer than 2^k tickets separate its own from the number of items returned.
  pub spin_exact :
      (i pos v : ℕ)
      → s.calls i ≡ spinning pos v
      → ((produce k s.queue (s.calls i)).1 ≡ filling pos v) ↔ (pos < length s.given + 2 ^ k)
  unfolding produce
  spin_exact i pos v at = (there, back)
    where
      index_eq : pos % 2 ^ k ≡ index k pos
      index_eq = sym (bit_and-mask pos k)

      here :
          (produce k s.queue (s.calls i)).1
          ≡ (if (s.queue.buffer (index k pos)).seq == pos then filling pos v else spinning pos v)
      here = ap (λ (c : Call). (produce k s.queue c).1) at

      passes : ((s.queue.buffer (index k pos)).seq == pos) ≡ true → pos < length s.given + 2 ^ k
      passes hit = spin_hit cells i pos v at (
          ap (λ (x : ℕ). (s.queue.buffer x).seq) index_eq
          ∙ (==_iff ((s.queue.buffer (index k pos)).seq) pos).0 hit)

      there : (produce k s.queue (s.calls i)).1 ≡ filling pos v → pos < length s.given + 2 ^ k
      there e = elim (Bool-cases ((s.queue.buffer (index k pos)).seq == pos)) [
        | inl hit ↦ passes hit
        | inr miss ↦ absurd (ground (arith, here, e, miss))
      ]

      back : pos < length s.given + 2 ^ k → (produce k s.queue (s.calls i)).1 ≡ filling pos v
      back l =
          let hit : ((s.queue.buffer (index k pos)).seq == pos) ≡ true =
            (==_iff ((s.queue.buffer (index k pos)).seq) pos).1 (
              ap (λ (x : ℕ). (s.queue.buffer x).seq) (sym index_eq)
              ∙ cells.unmarked i pos (ap ticket_of at) l) in
          here ∙ rw hit refl

  Writer-unique :
      (i j x : ℕ)
      → Writer k (length s.given) s.tickets (s.calls i) x
      → Writer k (length s.given) s.tickets (s.calls j) x
      → producer i ≡ producer j
  Writer-unique i j x (p, hp, lo, hi, e) (q, hq, lo', hi', e') =
      let same = same_cell (2 ^ k) p q (omega arith) (omega arith) (e ∙ sym e') in
      ap producer (cells.unique i j p hp (hq ∙ ap some (sym same)))

  not_read :
      (i x : ℕ) (c : Consumer)
      → ConsumerKnows (2 ^ k) (length s.given) s.queue.buffer s.tickets c
      → reads k s.queue.tail c ≡ some x
      → Writer k (length s.given) s.tickets (s.calls i) x
      → ⊥
  not_read i x reading (l, w) f (p, hp, lo, hi, e) =
      let at_tail : x ≡ length s.given % 2 ^ k =
        ground (arith, bit_and-mask s.queue.tail k, ap (λ (t : ℕ). t % 2 ^ k) tail) in
      let same =
        same_cell (2 ^ k) p (length s.given) hi (omega (arith, cells.wide)) (e ∙ at_tail) in
      omega (arith, cells.unmarked i p hp hi, ap (λ (t : ℕ). seq_at s.queue.buffer (2 ^ k) t) same)
  not_read i x ready m f wr = absurd (cc)
  not_read i x (freeing v) m f wr = absurd (cc)

  -- In such a state no two threads are about to touch the pointer of the same cell.
  pub race_free : (a b : Thread) (x : ℕ) → touches k s a ≡ some x → touches k s b ≡ some x → a ≡ b
  race_free (producer i) (producer j) x e f =
      Writer-unique i j x
        (writer k (length s.given) s.queue.buffer s.tickets (s.calls i) x (cells.mine i) e)
        (writer k (length s.given) s.queue.buffer s.tickets (s.calls j) x (cells.mine j) f)
  race_free (producer i) the_consumer x e f = absurd (
      not_read i x s.consumer cells.consumer f
        (writer k (length s.given) s.queue.buffer s.tickets (s.calls i) x (cells.mine i) e))
  race_free the_consumer (producer j) x e f = absurd (
      not_read j x s.consumer cells.consumer e
        (writer k (length s.given) s.queue.buffer s.tickets (s.calls j) x (cells.mine j) f))
  race_free the_consumer the_consumer x e f = refl

  -- In such a state with no call of `enqueue` under way, `dequeue` finds an item exactly when a
  -- ticket's item is not returned yet.
  pub quiet_ready :
      ((i : ℕ) → at_rest (s.calls i) ≡ true)
      → (consume k s.queue ready).1
        ≡ (if ltb (length s.given) (length s.tickets) then reading else ready)
  unfolding consume
  quiet_ready quiet =
      ap (λ (t : Bool). if t then ready else reading) (oldest_test (Reach-Inv h room r) room)
      ∙ answer (oldest cells)
    where
      no_ticket : (c : Call) (p : ℕ) → at_rest c ≡ true → ticket_of c ≡ some p → ⊥
      no_ticket idle p q e = cc
      no_ticket returned p q e = cc
      no_ticket (taking v) p q e = cc
      no_ticket (spinning pos v) p q e = cc
      no_ticket (filling pos v) p q e = cc
      no_ticket (marking pos v) p q e = cc

      marked :
          Served (2 ^ k) (length s.given) s.queue.buffer s.calls (length s.given)
          → seq_at s.queue.buffer (2 ^ k) (length s.given) ≡ length s.given + 1
      marked (inl (l, w)) = w
      marked (inr (i, e)) = absurd (no_ticket (s.calls i) (length s.given) (quiet i) e)

      answer :
          CellOf (2 ^ k) s.queue.buffer s.tickets (length s.given)
          → (if ltb (seq_at s.queue.buffer (2 ^ k) (length s.given)) (length s.given + 1)
              then ready
              else reading)
            ≡ (if ltb (length s.given) (length s.tickets) then reading else ready)
      answer (inr (w, l, m)) = ground arith
      answer (inl w) = elim (dec_lt (length s.given) (length s.tickets)) [
        | yes l ↦ absurd (omega (arith, marked (cells.served (length s.given) (omega arith) l)))
        | no g ↦ ground arith
      ]

-- ===== src/Mpsc/Bounded/Threads/Steps.antt =====
-- Every access of every thread keeps the invariant.
use shclog.Prelude.{
  ℕ, suc, ◌+◌, ◌%◌, ◌^◌, ◌≤◌, ◌<◌, ◌≡◌, refl, sym, ap, ap₂, subst, ◌∙◌, true, false, arith, List,
  [], ◌∷◌, ◌++◌, Option, get_or, none, some, length, take, length-append, length-replicate,
  get_or-replicate, take-suc, take-append_le,
}
use native.Mathlib.Nat.{zero-mod}
use shclog.Mpsc.Bounded.{slot_of}
use shclog.Mpsc.Bounded.Window.{slot, mask_of_wrapped}
use shclog.Mpsc.Bounded.Threads.{
  Call, idle, checking, claiming, backing_off, ticketing, storing, returned, Consumer, ready,
  releasing, assign, produce, exchanged, consume, System, ticketed, taken_out, at_rest, invoke_at,
  produce_at, Step, invoke, move, start, Reach, begin, next,
}
use shclog.Mpsc.Bounded.Threads.Tally.{claims, excess, tally-start, tally-ge}
use shclog.Mpsc.Bounded.Threads.Inv.{Counts, Cells, Inv, Ticket}
use shclog.Mpsc.Bounded.Threads.Cells.{Cells-other, Cells-ticket, Cells-store, is_storing}
use shclog.Mpsc.Bounded.Threads.Oldest.{oldest, Cells-take}
use shclog.Mpsc.Bounded.Threads.Counts.{
  capacity_bounds, gives, Counts-produce, Counts-invoke, Counts-take, Counts-release,
}

start-Inv : (k n : ℕ) → k ≤ 63 → n < 2 ^ 63 → Inv k n (start (2 ^ k))
start-Inv k n small few = record {
  counts = record {
    small = small;
    few = few;
    max = refl;
    mask = refl;
    head = refl;
    tail = sym (zero-mod (2 ^ k));
    order = omega arith;
    room = omega (arith, tally-start claims n refl);
    count = omega (arith, tally-start claims n refl, tally-start excess n refl);
  };
  cells = record {
    width = length-replicate (2 ^ k) none;
    pending = λ i h v l e. cc;
    alone = λ i j h v w li lj e f. cc;
    cell = λ t lo hi. absurd (omega arith);
    free = λ t lo hi. get_or-replicate (2 ^ k) (t % 2 ^ k) none;
  };
  fifo = refl;
}

append_none : (xs : List ℕ) → xs ++ [] ≡ xs
append_none [] = refl
append_none (x ∷ xs) = ap (λ r. x ∷ r) (append_none xs)

module _ {k n : ℕ} {s : System} (inv : Inv k n s) (i : ℕ) (l : i < n) where
  open inv use {counts, cells, fifo}

  produced-Counts :
      (p : Call)
      → s.calls i ≡ p
      → Counts k n
          (produce s.queue p).0
          (assign s.calls i (produce s.queue p).1)
          s.consumer
          (length s.given)
          (length (s.tickets ++ ticketed p))
  produced-Counts p at =
      subst
        (λ to.
          Counts k n (produce s.queue p).0 (assign s.calls i (produce s.queue p).1) s.consumer
            (length s.given) to)
        (grows p) (Counts-produce counts i l p at)
    where
      grows : (p : Call) → length s.tickets + gives p ≡ length (s.tickets ++ ticketed p)
      grows p = ground (arith, length-append s.tickets (ticketed p))

  produced_fifo : (p : Call) → s.given ≡ take (length s.given) (s.tickets ++ ticketed p)
  produced_fifo p =
      fifo
      ∙ sym (take-append_le (length s.given) s.tickets (ticketed p) (omega (arith, counts.order)))

  -- An access that leaves the slots alone.
  other-Cells :
      (c : Call)
      → is_storing (s.calls i) ≡ false
      → is_storing c ≡ false
      → Cells k n s.queue.buffer
          (assign s.calls i c)
          (s.tickets ++ [])
          (length s.given)
          (length (s.tickets ++ []))
  other-Cells c old new = rw append_none (Cells-other cells i l c old new)

  bounds : (1 ≤ 2 ^ k) × (2 ^ k ≤ 2 ^ 63)
  bounds = capacity_bounds k counts.small

  produced-Cells :
      (p : Call)
      → s.calls i ≡ p
      → Cells k n
          (produce s.queue p).0.buffer
          (assign s.calls i (produce s.queue p).1)
          (s.tickets ++ ticketed p)
          (length s.given)
          (length (s.tickets ++ ticketed p))
  unfolding produce
  produced-Cells (ticketing v) at =
      rw (counts.head, longer)
        (Cells-ticket cells i l v (ground arith) refl room counts.order counts.small bounds.1)
    where
      longer : length (s.tickets ++ (v ∷ [])) ≡ length s.tickets + 1
      longer = length-append s.tickets (v ∷ [])

      room : length s.tickets < length s.given + 2 ^ k
      room = ground (arith, counts.room, tally-ge claims n s.calls i l)
  produced-Cells (storing h v) at =
      let r = cells.pending i h v l at in
      rw (append_none, slot_eq r)
        (Cells-store cells i l h v true at r (omega (arith, counts.room)) bounds.1 bounds.0)
    where
      slot_eq :
          (r : Ticket k (length s.given) (length s.tickets) s.queue.buffer s.tickets h v)
          → slot_of s.queue h ≡ r.number % 2 ^ k
      slot_eq r =
          rw (counts.mask, r.wrapped) (mask_of_wrapped k r.number (omega (arith, counts.small)))
  produced-Cells idle at = other-Cells idle (ground arith) refl
  produced-Cells (checking v) at = other-Cells _ (ground arith) (ground arith)
  produced-Cells (claiming v) at = other-Cells _ (ground arith) (ground arith)
  produced-Cells backing_off at = other-Cells _ (ground arith) refl
  produced-Cells (returned b) at = other-Cells _ (ground arith) refl

  -- An access of the producer.
  produce-Inv : Inv k n (produce_at s i)
  produce-Inv = record {
    counts = produced-Counts (s.calls i) refl;
    cells = produced-Cells (s.calls i) refl;
    fifo = produced_fifo (s.calls i);
  }

-- A call of `enqueue` by a producer at rest.
invoke-Inv :
    {k n : ℕ} {s : System}
    → Inv k n s
    → (i v : ℕ) → i < n
    → at_rest (s.calls i) ≡ true
    → Inv k n (invoke_at s i v)
invoke-Inv {s = s} inv i v l rest = record {
  counts = Counts-invoke inv.counts i l v (ground arith) (ground arith);
  cells = Cells-other inv.cells i l (checking v) (ground arith) refl;
  fifo = inv.fifo;
}

module _ {k n : ℕ} {s : System} (inv : Inv k n s) where
  open inv use {counts, cells, fifo}

  -- what the consumer's exchange sees
  tail_slot : get_or s.queue.buffer s.queue.tail none ≡ slot s.queue.buffer (2 ^ k) (length s.given)
  tail_slot = rw counts.tail

  Counts-at :
      (c : Consumer)
      → s.consumer ≡ c
      → Counts k n s.queue s.calls c (length s.given) (length s.tickets)
  Counts-at c at =
      subst (λ c. Counts k n s.queue s.calls c (length s.given) (length s.tickets)) at counts

  took-Inv :
      (o : Option ℕ)
      → get_or s.queue.buffer s.queue.tail none ≡ o
      → s.consumer ≡ ready
      → Inv k n (record s {
        queue = (exchanged s.queue o).0;
        consumer = (exchanged s.queue o).1;
        given = s.given ++ taken_out ready (exchanged s.queue o).1;
      })
  unfolding exchanged
  took-Inv none found at =
      rw append_none (record { counts = Counts-at ready at; cells = cells; fifo = fifo })
  took-Inv (some v) found at = record {
    counts = rw longer (Counts-take _ v (Counts-at ready at) first.0);
    cells =
        rw (longer, counts.tail)
          (Cells-take cells v in_slot first.0 (omega (arith, counts.room)) bounds.0);
    fifo =
        ap₂ (λ xs x. xs ++ (x ∷ [])) fifo (sym first.1)
        ∙ sym (take-suc (length s.given) s.tickets 0 first.0)
        ∙ ap (λ (m : ℕ). take m s.tickets) {x = suc (length s.given)} (omega (arith, longer));
  }
    where
      bounds : (1 ≤ 2 ^ k) × (2 ^ k ≤ 2 ^ 63)
      bounds = capacity_bounds k counts.small

      in_slot : slot s.queue.buffer (2 ^ k) (length s.given) ≡ some v
      in_slot = sym tail_slot ∙ found

      first : (length s.given < length s.tickets) × (get_or s.tickets (length s.given) 0 ≡ v)
      first = oldest cells v counts.order (omega (arith, counts.room)) bounds.1 bounds.0 in_slot

      longer : length (s.given ++ (v ∷ [])) ≡ length s.given + 1
      longer = length-append s.given (v ∷ [])

  consume-Inv :
      (c : Consumer)
      → s.consumer ≡ c
      → Inv k n (record s {
        queue = (consume s.queue c).0;
        consumer = (consume s.queue c).1;
        given = s.given ++ taken_out c (consume s.queue c).1;
      })
  unfolding consume
  consume-Inv ready at = took-Inv _ refl at
  consume-Inv (releasing v) at =
      rw append_none (record {
        counts = Counts-release (Counts-at (releasing v) at);
        cells = cells;
        fifo = fifo;
      })

-- Every step of every thread keeps the invariant.
pub Step-Inv : {k n : ℕ} {s t : System} → Step n s t → Inv k n s → Inv k n t
Step-Inv (invoke i v l rest) inv = invoke-Inv inv i v l rest
Step-Inv (move i l) inv = produce-Inv inv i l
Step-Inv {s = s} (Step.take) inv = consume-Inv inv s.consumer refl

pub Reach-Inv : {k n : ℕ} {s : System} → k ≤ 63 → n < 2 ^ 63 → Reach n (2 ^ k) s → Inv k n s
Reach-Inv {k} {n} small few begin = start-Inv k n small few
Reach-Inv small few (next r st) = Step-Inv st (Reach-Inv small few r)

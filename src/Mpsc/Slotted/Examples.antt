-- ===== src/Mpsc/Slotted/Examples.antt =====
-- Runs of a slotted queue, and its theorems at concrete states.
use shclog.Prelude.{
  ℕ, zero, suc, ◌+◌, ◌^◌, ◌<◌, ◌≡◌, ◌↔◌, refl, true, List, [], ◌∷◌, ◌++◌, length, ltb, arith,
  if◌then◌else◌,
}
use shclog.Mpsc.Slotted.{
  filling, ready, reading, produce, consume, System, at_rest, invoke_at, produce_at, consume_at,
  Step, invoke, move, start, Reach, begin, next,
}
use shclog.Mpsc.Slotted.Safety.{producer, slotted_order, spin_exact, race_free, quiet_ready}

-- Producer 0 calls `enqueue(7)` on two cells and has its ticket, passes the test, has returned.
abbrev with_ticket : System
with_ticket = produce_at 1 (invoke_at (start 1) 0 7) 0

abbrev passed : System
passed = produce_at 1 with_ticket 0

abbrev stored : System
stored = produce_at 1 (produce_at 1 passed 0) 0

-- The consumer has found the item.
abbrev found : System
found = consume_at 1 stored

with_ticket-Reach : Reach 1 with_ticket
with_ticket-Reach = next (next begin (invoke 0 7 refl)) (move 0)

passed-Reach : Reach 1 passed
passed-Reach = next with_ticket-Reach (move 0)

stored-Reach : Reach 1 stored
stored-Reach = next (next passed-Reach (move 0)) (move 0)

-- Three accesses of the consumer return the item.
taken_out : (consume_at 1 (consume_at 1 found)).given ≡ 7 ∷ []
unfolding produce consume
taken_out = refl

-- With a single cell the mark of an item is also that of the next free cell: the second call
-- overwrites the first one's item, and the consumer returns 8.
overwritten :
    (consume_at 0 (
      consume_at 0 (
        consume_at 0 (
          produce_at 0
            (produce_at 0
              (produce_at 0
                (produce_at 0
                  (invoke_at
                    (produce_at 0
                      (produce_at 0 (produce_at 0 (produce_at 0 (invoke_at (start 0) 0 7) 0) 0) 0)
                      0)
                    1
                    8)
                  1)
                1)
              1)
            1)))).given
    ≡ 8 ∷ []
unfolding produce consume
overwritten = refl

slotted_order_example : (rest : List ℕ) × (found.tickets ≡ found.given ++ rest)
unfolding produce
slotted_order_example =
    slotted_order {k = 1} (omega arith) (omega arith) (next stored-Reach Step.take)

spin_exact_example :
    ((produce 1 with_ticket.queue (with_ticket.calls 0)).1 ≡ filling 0 7)
    ↔ (0 < length with_ticket.given + 2 ^ 1)
unfolding produce
spin_exact_example = spin_exact {k = 1} (omega arith) (omega arith) with_ticket-Reach 0 0 7 refl

race_free_example : producer 0 ≡ producer 0
unfolding produce
race_free_example =
    race_free {k = 1} (omega arith) (omega arith) passed-Reach (producer 0) (producer 0) 0 refl refl

stored_quiet : (i : ℕ) → at_rest (stored.calls i) ≡ true
unfolding produce
stored_quiet zero = refl
stored_quiet (suc i) = ground arith

quiet_ready_example :
    (consume 1 stored.queue ready).1
    ≡ (if ltb (length stored.given) (length stored.tickets) then reading else ready)
unfolding produce
quiet_ready_example = quiet_ready {k = 1} (omega arith) (omega arith) stored-Reach stored_quiet

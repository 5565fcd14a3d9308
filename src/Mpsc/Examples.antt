-- ===== src/Mpsc/Examples.antt =====
-- Runs of the queues, and their theorems at concrete inputs.
use shclog.Prelude.{
  ℕ, zero, suc, ◌+◌, ◌^◌, ◌≤◌, ◌<◌, ◌≡◌, refl, true, false, arith, none, some, List, [], ◌∷◌, ◌++◌,
  length, get_or,
}
use shclog.Mpsc.Spec
use shclog.Mpsc.Spec.{Op, put, get, stored, got}
use shclog.Mpsc.Bounded.{Queue, create, empty_queue, slot_of, enqueue, dequeue, drain}
use shclog.Mpsc.Bounded.Create.{create-IsPow}
use shclog.Mpsc.Bounded.Held.{empty-Holds}
use shclog.Mpsc.Bounded.Held.{Holds}
use shclog.Mpsc.Bounded.Fifo.{enqueue_refines, run, run_refines, drain_all}
use shclog.Mpsc.Bounded.Window.{slot}
use shclog.Mpsc.Bounded.Threads.{
  produce, consume, System, start, invoke_at, produce_at, consume_at, Step, invoke, move, Reach,
  begin, next, at_rest,
}
use shclog.Mpsc.Bounded.Threads.Safety.{fifo_order, store_vacant, release_positive, quiet_contents}
use shclog.Mpsc.Bounded.Threads.Alone.{run_alone, run_alone_refines}

abbrev script : List Op
script =
    put (some 7)
    ∷ put (some 8)
    ∷ put (some 9)
    ∷ put none
    ∷ get
    ∷ put (some 9)
    ∷ get
    ∷ get
    ∷ get
    ∷ []

script_replies :
    run (empty_queue 2) script
    ≡ stored true
      ∷ stored true
      ∷ stored false
      ∷ stored false
      ∷ got (some 7)
      ∷ stored true
      ∷ got (some 8)
      ∷ got (some 9)
      ∷ got none
      ∷ []
unfolding run enqueue dequeue
script_replies = refl

create-IsPow_example : (k : ℕ) × (1 ≤ k) × (8 ≡ 2 ^ k) × (empty_queue 8 ≡ empty_queue 8)
unfolding create
create-IsPow_example = create-IsPow true true 8 refl

run_refines_example : run (empty_queue 2) script ≡ Spec.run 2 [] script
run_refines_example = run_refines script (empty-Holds 1 (omega arith))

-- one item in, then the destructor
abbrev with_seven : Queue
with_seven = (enqueue (empty_queue 2) (some 7)).0

with_seven-Holds : Holds 1 with_seven 0 (7 ∷ [])
unfolding Spec.push
with_seven-Holds = (enqueue_refines (some 7) (empty-Holds 1 (omega arith))).1

drain_all_example : drain 2 with_seven ≡ some (7 ∷ [])
drain_all_example = drain_all 2 (7 ∷ []) with_seven-Holds (omega arith)

-- Producer 0 calls `enqueue(7)` and has its ticket; producer 1 has claimed the other slot.
abbrev ticketed_seven : System
ticketed_seven =
    produce_at
      (produce_at
        (produce_at (produce_at (produce_at (invoke_at (invoke_at (start 2) 0 7) 1 8) 0) 0) 0) 1)
      1

ticketed_seven-Reach : Reach 2 2 ticketed_seven
ticketed_seven-Reach =
    next
      (next
        (next
          (next
            (next
              (next (next begin (invoke 0 7 (omega arith) refl)) (invoke 1 8 (omega arith) refl))
              (move 0 (omega arith)))
            (move 0 (omega arith)))
          (move 0 (omega arith)))
        (move 1 (omega arith)))
      (move 1 (omega arith))

fifo_order_example :
    (rest : List ℕ) × (ticketed_seven.tickets ≡ ticketed_seven.given ++ rest) × (length rest ≤ 2)
fifo_order_example = fifo_order {k = 1} (omega arith) (omega arith) ticketed_seven-Reach

store_vacant_example :
    get_or ticketed_seven.queue.buffer (slot_of ticketed_seven.queue 0) none ≡ none
unfolding produce
store_vacant_example =
    store_vacant {k = 1} (omega arith) (omega arith) ticketed_seven-Reach 0 0 7 (omega arith) refl

-- Producer 0 alone stores 7, and the consumer has taken it out.
abbrev stored_seven : System
stored_seven = produce_at (produce_at (produce_at (produce_at (invoke_at (start 2) 0 7) 0) 0) 0) 0

stored_seven-Reach : Reach 1 2 stored_seven
stored_seven-Reach =
    next
      (next
        (next (next (next begin (invoke 0 7 (omega arith) refl)) (move 0 (omega arith)))
          (move 0 (omega arith)))
        (move 0 (omega arith)))
      (move 0 (omega arith))

release_positive_example : 0 < (consume_at stored_seven).queue.count
unfolding produce consume
release_positive_example =
    release_positive {k = 1} (omega arith) (omega arith) (next stored_seven-Reach Step.take) 7 refl

stored_seven_quiet : (i : ℕ) → i < 1 → at_rest (stored_seven.calls i) ≡ true
unfolding produce
stored_seven_quiet zero l = refl
stored_seven_quiet (suc i) l = absurd (omega arith)

quiet_contents_example :
    (stored_seven.queue.count + length stored_seven.given ≡ length stored_seven.tickets)
    × ((t : ℕ)
        → length stored_seven.given ≤ t
        → t < length stored_seven.tickets
        → slot stored_seven.queue.buffer 2 t ≡ some (get_or stored_seven.tickets t 0))
unfolding produce
quiet_contents_example =
    quiet_contents {k = 1} (omega arith) (omega arith) stored_seven-Reach stored_seven_quiet refl

run_alone_refines_example : run_alone (empty_queue 2) script ≡ Spec.run 2 [] script
run_alone_refines_example = run_alone_refines script (empty-Holds 1 (omega arith))

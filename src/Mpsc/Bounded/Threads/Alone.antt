-- ===== src/Mpsc/Bounded/Threads/Alone.antt =====
-- Calls whose accesses no other thread interrupts: access by access, the queue is a bounded first-in
-- first-out list.
use shclog.Prelude.{
  ℕ, zero, suc, ◌^◌, ◌≡◌, refl, ap, ◌∙◌, Bool, false, Option, none, some, List, [], ◌∷◌, arith,
}
use shclog.Mpsc.Spec
use shclog.Mpsc.Spec.{Op, put, get, Reply, stored, got}
use shclog.Mpsc.Bounded.{Queue, enqueue, take_item, dequeue}
use shclog.Mpsc.Bounded.Held.{Holds}
use shclog.Mpsc.Bounded.Fifo.{run, run_refines}
use shclog.Mpsc.Bounded.Threads.{
  Call, checking, returned, Consumer, ready, releasing, produce, exchanged, consume,
}

-- A producer's accesses while no other thread moves.
unfoldable alone : ℕ → Queue → Call → Queue × Call
alone zero q c = (q, c)
alone (suc m) q c = let (q', c') = produce q c in alone m q' c'

-- Four accesses finish a call of `enqueue` that no other thread interrupts, and they do what the
-- function does.
alone-enqueue :
    (q : Queue) (v : ℕ)
    → alone 4 q (checking v) ≡ ((enqueue q (some v)).0, returned (enqueue q (some v)).1)
unfolding alone produce enqueue
alone-enqueue q v = ground arith

-- What `dequeue` returns after its first access: the decrement follows if an item was found.
unfoldable finish : Queue × Consumer → Queue × Option ℕ
unfolding consume
finish (q, ready) = (q, none)
finish (q, releasing v) = ((consume q (releasing v)).0, some v)

-- The accesses of a call of `dequeue` that no other thread interrupts do what the function does.
alone-dequeue : (q : Queue) → finish (consume q ready) ≡ dequeue q
unfolding finish consume exchanged dequeue take_item
alone-dequeue q = ground arith

-- A null pointer makes no access.
abbrev enqueue_alone : Queue → Option ℕ → Queue × Call
enqueue_alone q none = (q, returned false)
enqueue_alone q (some v) = alone 4 q (checking v)

abbrev answer : Call → Bool
answer (returned b) = b
answer _ = false

-- A client's calls in order, each made access by access, with what each returns.
unfoldable pub run_alone : Queue → List Op → List Reply
unfolding alone finish
run_alone q [] = []
run_alone q (put v ∷ ops) = let (q', c) = enqueue_alone q v in stored (answer c) ∷ run_alone q' ops
run_alone q (get ∷ ops) = let (q', v) = finish (consume q ready) in got v ∷ run_alone q' ops

enqueue_null : (q : Queue) → (q, false) ≡ enqueue q none
unfolding enqueue
enqueue_null q = refl

run_alone-run : (q : Queue) (ops : List Op) → run_alone q ops ≡ run q ops
unfolding run_alone run
run_alone-run q [] = refl
run_alone-run q (put none ∷ ops) =
    ap (λ r. stored false ∷ r) (run_alone-run q ops)
    ∙ ap (λ (p : Queue × Bool). stored p.1 ∷ run p.0 ops) (enqueue_null q)
run_alone-run q (put (some v) ∷ ops) =
    ap (λ (p : Queue × Call). stored (answer p.1) ∷ run_alone p.0 ops) (alone-enqueue q v)
    ∙ ap (λ r. stored (enqueue q (some v)).1 ∷ r) (run_alone-run ((enqueue q (some v)).0) ops)
run_alone-run q (get ∷ ops) =
    ap (λ (p : Queue × Option ℕ). got p.1 ∷ run_alone p.0 ops) (alone-dequeue q)
    ∙ ap (λ r. got (dequeue q).1 ∷ r) (run_alone-run ((dequeue q).0) ops)

-- On a queue of 2^k slots that holds some items in order, with k at most 63, any calls of `enqueue` and
-- `dequeue`, made one after the other access by access, with no other thread in between, answer as
-- those of a bounded first-in first-out list with these items do.
pub run_alone_refines :
    (ops : List Op) {k : ℕ} {q : Queue} {t : ℕ} {items : List ℕ}
    → Holds k q t items
    → run_alone q ops ≡ Spec.run (2 ^ k) items ops
run_alone_refines ops {q = q} h = run_alone-run q ops ∙ run_refines ops h

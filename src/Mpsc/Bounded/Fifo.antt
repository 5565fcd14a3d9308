-- ===== src/Mpsc/Bounded/Fifo.antt =====
-- Without overlap the queue answers as a bounded FIFO list, and its destructor empties it.
use shclog.Prelude.{
  ℕ, zero, suc, ◌+◌, ◌^◌, ◌≤◌, ◌<◌, ◌≡◌, refl, ap, ◌∙◌, true, false, Option, none, some, List, [],
  ◌∷◌, ◌++◌, length, get_elem?, get_or, set, arith, bit_and, dec_lt,
}
use mathlib.Core.Option
use mathlib.Core.Path.{ap₂}
use shclog.Mpsc.Spec
use shclog.Mpsc.Spec.{Op, put, get, Reply, stored, got}
use shclog.Mpsc.Bounded.{Queue, add_usize, sub_usize, enqueue, take_item, dequeue, drain}
use shclog.Mpsc.Bounded.Window.{slot}
use shclog.Mpsc.Bounded.Held.{Holds, bounds, push-Holds, pop-Holds, enqueue-ok, enqueue-full}

-- Spec.push on either side of the bound
push-ok :
    (cap : ℕ) (items : List ℕ) (v : ℕ)
    → length items < cap
    → Spec.push cap items (some v) ≡ (items ++ (v ∷ []), true)
unfolding Spec.push
push-ok cap items v h = ground arith

push-full :
    (cap : ℕ) (items : List ℕ) (v : ℕ)
    → cap ≤ length items
    → Spec.push cap items (some v) ≡ (items, false)
unfolding Spec.push
push-full cap items v h = ground arith

-- A call of `enqueue` answers as the bounded list does, and the queue then holds that list.
pub enqueue_refines :
    {k : ℕ} {q : Queue} {t : ℕ} {items : List ℕ} (v : Option ℕ)
    → Holds k q t items
    → ((enqueue q v).1 ≡ (Spec.push (2 ^ k) items v).1)
      × Holds k (enqueue q v).0 t (Spec.push (2 ^ k) items v).0
unfolding enqueue Spec.push
enqueue_refines none h = (refl, h)
enqueue_refines {k} {q} {t} {items} (some v) h = elim (dec_lt (length items) (2 ^ k)) [
  | yes r ↦
      rw (enqueue-ok q v (omega (arith, h.max, h.count)), push-ok (2 ^ k) items v r)
        (refl, push-Holds h v r)
  | no r ↦
      rw (enqueue-full q v (omega (arith, h.max, h.count)), push-full (2 ^ k) items v (omega arith))
        (refl, h)
]

front :
    {k : ℕ} {q : Queue} {t : ℕ} (items : List ℕ)
    → Holds k q t items
    → get_or q.buffer q.tail none ≡ get_elem? items 0
front {k} {q} {t} items h = rw h.tail (
    ap (λ (i : ℕ). slot q.buffer (2 ^ k) i) {x = t} {y = t + 0} (omega arith)
    ∙ h.cells 0 (omega (arith, bounds k h.small)))

dequeue-empty : {k : ℕ} {q : Queue} {t : ℕ} → Holds k q t [] → dequeue q ≡ (q, none)
unfolding dequeue
dequeue-empty h = rw (front [] h, take_item)

dequeue_front :
    {k : ℕ} {q : Queue} {t v : ℕ} {items : List ℕ}
    → Holds k q t (v ∷ items)
    → dequeue q ≡ (
      record q {
        buffer = set q.buffer q.tail none;
        tail = bit_and (add_usize q.tail 1) q.buf_mask;
        count = sub_usize q.count 1;
      },
      some v,
    )
unfolding dequeue
dequeue_front h = rw (front _ h, take_item)

-- A call of `dequeue` answers as the list does, and the queue then holds what is left.
pub dequeue_refines :
    {k : ℕ} {q : Queue} {t : ℕ} (items : List ℕ)
    → Holds k q t items
    → ((dequeue q).1 ≡ (Spec.pop items).1)
      × ((t' : ℕ) × Holds k (dequeue q).0 t' (Spec.pop items).0)
unfolding Spec.pop
dequeue_refines {t = t} [] h = rw (dequeue-empty h) (refl, (t, h))
dequeue_refines {t = t} (v ∷ items) h = rw (dequeue_front h) (refl, (t + 1, pop-Holds h))

-- The destructor deletes what the queue holds, in order, and ends: a round for each item and one
-- that finds the queue empty.
pub drain_all :
    (fuel : ℕ) {k : ℕ} {q : Queue} {t : ℕ} (items : List ℕ)
    → Holds k q t items
    → length items < fuel
    → drain fuel q ≡ some items
unfolding drain
drain_all zero items h l = absurd (omega arith)
drain_all (suc fuel) [] h l = rw (dequeue-empty h, drain)
drain_all (suc fuel) (v ∷ items) h l =
    rw (dequeue_front h, drain)
      (ap (λ (p : Queue × Option ℕ). Option.map (λ vs. v ∷ vs) (drain fuel p.0)) (dequeue_front h)
        ∙ ap (Option.map (λ vs. v ∷ vs)) (drain_all fuel items (pop-Holds h) (omega arith)))

-- A client's calls in order, with what each returns.
unfoldable pub run : Queue → List Op → List Reply
run q [] = []
run q (put v ∷ ops) = let (q', b) = enqueue q v in stored b ∷ run q' ops
run q (get ∷ ops) = let (q', v) = dequeue q in got v ∷ run q' ops

-- No sequence of calls tells the queue from the bounded list.
pub run_refines :
    (ops : List Op) {k : ℕ} {q : Queue} {t : ℕ} {items : List ℕ}
    → Holds k q t items
    → run q ops ≡ Spec.run (2 ^ k) items ops
unfolding run Spec.run
run_refines [] h = refl
run_refines (put v ∷ ops) h =
    let (e, h') = enqueue_refines v h in ap₂ (λ b r. stored b ∷ r) e (run_refines ops h')
run_refines (get ∷ ops) {items = items} h =
    let (e, (_, h')) = dequeue_refines items h in ap₂ (λ v r. got v ∷ r) e (run_refines ops h')

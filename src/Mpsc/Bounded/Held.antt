-- ===== src/Mpsc/Bounded/Held.antt =====
-- A queue that holds a list, and the accesses that keep it so.
use shclog.Prelude.{
  ℕ, suc, ◌+◌, ◌-◌, ◌%◌, ◌^◌, ◌≤◌, ◌<◌, ◌≡◌, refl, sym, ap, ◌∙◌, true, false, none, some, List, [],
  ◌∷◌, ◌++◌, length, get_elem?, get_or, set, arith, get_elem?-append_one, get_elem?-none,
  length-set, length-append, length-replicate, get_or-replicate, bit_and, ℕ_discrete,
}
use native.Mathlib.Nat.{one-le-pow, pow-le-pow_right, add-mod_right, zero-mod}
use shclog.Mpsc.Bounded.{Queue, add_usize, sub_usize, empty_queue, slot_of, store, enqueue}
use shclog.Mpsc.Bounded.Window.{slot, slot-set_self, slot-set_ne, mask_of_wrapped, next_tail}

-- A queue of capacity 2^k at rest, with `t` items taken so far and `items` still in it.
pub record Holds (k : ℕ) (q : Queue) (t : ℕ) (items : List ℕ) : Type 0 where
  pub small : k ≤ 63
  pub max : q.max ≡ 2 ^ k
  pub mask : q.buf_mask ≡ 2 ^ k - 1
  pub width : length q.buffer ≡ 2 ^ k
  pub head : q.head ≡ (t + length items) % 2 ^ 64
  pub tail : q.tail ≡ t % 2 ^ k
  pub count : q.count ≡ length items
  pub room : length items ≤ 2 ^ k
  pub cells : (j : ℕ) → j < 2 ^ k → slot q.buffer (2 ^ k) (t + j) ≡ get_elem? items j

pub bounds : (k : ℕ) → k ≤ 63 → (1 ≤ 2 ^ k) × (2 ^ k ≤ 2 ^ 63)
bounds k h = (one-le-pow k 2 (omega arith), pow-le-pow_right {n = 2} (omega arith) h)

-- `create`'s queue holds nothing.
pub empty-Holds : (k : ℕ) → k ≤ 63 → Holds k (empty_queue (2 ^ k)) 0 []
empty-Holds k h = record {
  small = h;
  max = refl;
  mask = refl;
  width = length-replicate (2 ^ k) none;
  head = refl;
  tail = sym (zero-mod (2 ^ k));
  count = refl;
  room = omega arith;
  cells = λ j l. get_or-replicate (2 ^ k) ((0 + j) % 2 ^ k) none;
}

module _ {k : ℕ} {q : Queue} {t : ℕ} {items : List ℕ} (h : Holds k q t items) where
  -- the slot that `enqueue` writes
  head_slot : slot_of q q.head ≡ (t + length items) % 2 ^ k
  head_slot = rw (h.head, h.mask) (mask_of_wrapped k (t + length items) (omega (arith, h.small)))

  cells-push :
      (v j : ℕ)
      → j < 2 ^ k
      → length items < 2 ^ k
      → slot (set q.buffer ((t + length items) % 2 ^ k) (some v)) (2 ^ k) (t + j)
        ≡ get_elem? (items ++ (v ∷ [])) j
  cells-push v j l r = elim (ℕ_discrete j (length items)) [
    | yes e ↦ ground (
      arith,
      ap (λ (i : ℕ). slot (set q.buffer ((t + length items) % 2 ^ k) (some v)) (2 ^ k) (t + i)) e,
      slot-set_self q.buffer (2 ^ k) (t + length items) (some v) (omega arith) h.width,
      get_elem?-append_one items v j,
    )
    | no ne ↦ ground (
      arith,
      slot-set_ne q.buffer (2 ^ k) (t + length items) (t + j) (some v) (omega arith) (omega arith)
          (omega arith),
      h.cells j l,
      get_elem?-append_one items v j,
    )
  ]

  -- The queue with one more item.
  pub push-Holds :
      (v : ℕ)
      → length items < 2 ^ k
      → Holds k
          (store (record q { count = add_usize q.count 1; head = add_usize q.head 1 }) q.head v)
          t
          (items ++ (v ∷ []))
  push-Holds v r = record {
    small = h.small;
    max = h.max;
    mask = h.mask;
    width = length-set q.buffer (slot_of q q.head) (some v) ∙ h.width;
    head = omega (arith, h.head, length-append items (v ∷ []));
    tail = h.tail;
    count = omega (arith, h.count, length-append items (v ∷ []), bounds k h.small);
    room = omega (arith, length-append items (v ∷ []));
    cells = λ j l. rw head_slot (cells-push v j l r);
  }

module _ {k : ℕ} {q : Queue} {t v : ℕ} {items : List ℕ} (h : Holds k q t (v ∷ items)) where
  cells-pop :
      (j : ℕ)
      → j < 2 ^ k
      → slot (set q.buffer (t % 2 ^ k) none) (2 ^ k) (t + 1 + j) ≡ get_elem? items j
  cells-pop j l = elim (ℕ_discrete (j + 1) (2 ^ k)) [
    | yes e ↦
        ap (λ (i : ℕ). get_or (set q.buffer (t % 2 ^ k) none) (i % 2 ^ k) none) (round e)
        ∙ ap (λ (i : ℕ). get_or (set q.buffer (t % 2 ^ k) none) i none) (add-mod_right t (2 ^ k))
        ∙ slot-set_self q.buffer (2 ^ k) t none (omega arith) h.width
        ∙ sym (get_elem?-none items j (omega (arith, h.room)))
    | no ne ↦
        ap (λ (i : ℕ). slot (set q.buffer (t % 2 ^ k) none) (2 ^ k) i) later
        ∙ slot-set_ne q.buffer (2 ^ k) t (t + suc j) none (omega arith) (omega arith) (omega arith)
        ∙ h.cells (suc j) (omega arith)
  ]
    where
      round : j + 1 ≡ 2 ^ k → t + 1 + j ≡ t + 2 ^ k
      round e = omega arith

      later : t + 1 + j ≡ t + suc j
      later = omega arith

  -- The queue without its first item.
  pub pop-Holds :
      Holds k
        (record q {
          buffer = set q.buffer q.tail none;
          tail = bit_and (add_usize q.tail 1) q.buf_mask;
          count = sub_usize q.count 1;
        })
        (t + 1)
        items
  pop-Holds = record {
    small = h.small;
    max = h.max;
    mask = h.mask;
    width = length-set q.buffer q.tail none ∙ h.width;
    head = omega (arith, h.head);
    tail = rw (h.tail, h.mask) (next_tail k t h.small);
    count = omega (arith, h.count, h.room, bounds k h.small);
    room = omega (arith, h.room);
    cells = λ j l. rw h.tail (cells-pop j l);
  }

pub enqueue-ok :
    (q : Queue) (v : ℕ)
    → q.count < q.max
    → enqueue q (some v)
      ≡ (store (record q { count = add_usize q.count 1; head = add_usize q.head 1 }) q.head v, true)
unfolding enqueue
enqueue-ok q v h = ground arith

pub enqueue-full : (q : Queue) (v : ℕ) → q.max ≤ q.count → enqueue q (some v) ≡ (q, false)
unfolding enqueue
enqueue-full q v h = ground arith

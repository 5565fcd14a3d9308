-- ===== src/Io/Iouring/Ring/Submit.antt =====
-- The submission ring is a bounded queue: a push appends one entry, or finds the ring full.
use shclog.Prelude.{
  ℕ, ◌+◌, ◌-◌, ◌%◌, ◌^◌, ◌≤◌, ◌<◌, ◌≡◌, ◌≢◌, sym, ap, ◌∙◌, bit_and, Bool, none, some, List, [], ◌∷◌,
  ◌++◌, length, get_or, set, arith, length-append, length-set, get_or-set_self, get_or-set_ne,
  get_or-append_lt, get_or-append_at, ticket_unique, mask_of_word, ℕ_discrete,
}
use native.Mathlib.Nat.{mod-lt, one-le-pow, pow-le-pow_right}
use shclog.Io.Exec.{Exec, returns}
use shclog.Io.Iouring.Ring.{
  Sqe, no_request, EventedIo, Kernel, queue_is_full, next_sq_slot, publish, notify, push,
}

-- A submission ring of 2^k entries in which the kernel has consumed `h` entries, and `items` wait
-- for it.
pub record Queued (k : ℕ) (e : EventedIo) (h : ℕ) (items : List Sqe) : Type 0 where
  pub small : k ≤ 31
  pub mask : e.sq_mask ≡ 2 ^ k - 1
  pub array_width : length e.sq_array ≡ 2 ^ k
  pub entries_width : length e.sqes ≡ 2 ^ k
  pub head : e.sq_head ≡ h % 2 ^ 32
  pub tail : e.sq_tail ≡ (h + length items) % 2 ^ 32
  pub room : length items ≤ 2 ^ k
  pub indices : (j : ℕ) → j < length items → get_or e.sq_array ((h + j) % 2 ^ k) 0 ≡ (h + j) % 2 ^ k
  pub entries :
      (j : ℕ)
      → j < length items
      → get_or e.sqes ((h + j) % 2 ^ k) no_request ≡ get_or items j no_request

pub ring_bounds : (k : ℕ) → k ≤ 31 → (1 ≤ 2 ^ k) × (2 ^ k ≤ 2 ^ 31)
ring_bounds k h = (one-le-pow k 2 (omega arith), pow-le-pow_right {n = 2} (omega arith) h)

module _ {k : ℕ} {e : EventedIo} {h : ℕ} {items : List Sqe} (q : Queued k e h items) where
  slot_free : length items < 2 ^ k → next_sq_slot e ≡ some e.sq_tail
  unfolding next_sq_slot
  slot_free r = ground (arith, q.mask, q.head, q.tail, ring_bounds k q.small)

  slot_none : length items ≡ 2 ^ k → next_sq_slot e ≡ none
  unfolding next_sq_slot
  slot_none r = ground (arith, q.mask, q.head, q.tail, ring_bounds k q.small)

  index_of : bit_and e.sq_tail e.sq_mask ≡ (h + length items) % 2 ^ k
  index_of = rw (q.tail, q.mask) (mask_of_word 32 k (h + length items) (omega (arith, q.small)))

  apart :
      (j : ℕ)
      → j < length items
      → length items < 2 ^ k
      → (h + length items) % 2 ^ k ≢ (h + j) % 2 ^ k
  apart j l r same = omega (
    arith,
    ticket_unique (2 ^ k) (h + j) (h + length items) (omega arith) (omega arith) (sym same),
  )

  pub publish-Queued :
      (sqe : Sqe)
      → length items < 2 ^ k
      → Queued k (publish e e.sq_tail sqe) h (items ++ (sqe ∷ []))
  unfolding publish
  publish-Queued sqe r = record {
    small = q.small;
    mask = q.mask;
    array_width = length-set e.sq_array _ _ ∙ q.array_width;
    entries_width = length-set e.sqes _ _ ∙ q.entries_width;
    head = q.head;
    tail = omega (arith, q.tail, length-append items (sqe ∷ []));
    room = omega (arith, length-append items (sqe ∷ []));
    indices = λ j l. rw index_of (index_at j (omega (arith, length-append items (sqe ∷ []))));
    entries = λ j l. rw index_of (entry_at j (omega (arith, length-append items (sqe ∷ []))));
  }
    where
      at : ℕ
      at = (h + length items) % 2 ^ k

      in_ring : at < 2 ^ k
      in_ring = mod-lt (h + length items) (omega (arith, ring_bounds k q.small))

      here : {j : ℕ} → j ≡ length items → at ≡ (h + j) % 2 ^ k
      here same = ap (λ (x : ℕ). (h + x) % 2 ^ k) (sym same)

      index_at :
          (j : ℕ)
          → j < length items + 1
          → get_or (set e.sq_array at at) ((h + j) % 2 ^ k) 0 ≡ (h + j) % 2 ^ k
      index_at j l = elim (ℕ_discrete j (length items)) [
        | yes same ↦
            ap (λ (i : ℕ). get_or (set e.sq_array at at) i 0) (sym (here same))
            ∙ get_or-set_self e.sq_array at at 0 (omega (arith, q.array_width, in_ring))
            ∙ here same
        | no ne ↦
            get_or-set_ne e.sq_array at ((h + j) % 2 ^ k) at 0 (apart j (omega arith) r)
            ∙ q.indices j (omega arith)
      ]

      entry_at :
          (j : ℕ)
          → j < length items + 1
          → get_or (set e.sqes at sqe) ((h + j) % 2 ^ k) no_request
            ≡ get_or (items ++ (sqe ∷ [])) j no_request
      entry_at j l = elim (ℕ_discrete j (length items)) [
        | yes same ↦
            ap (λ (i : ℕ). get_or (set e.sqes at sqe) i no_request) (sym (here same))
            ∙ get_or-set_self e.sqes at sqe no_request (omega (arith, q.entries_width, in_ring))
            ∙ sym (get_or-append_at items sqe no_request [] j same)
        | no ne ↦
            get_or-set_ne e.sqes at ((h + j) % 2 ^ k) sqe no_request (apart j (omega arith) r)
            ∙ q.entries j (omega arith)
            ∙ sym (get_or-append_lt items (sqe ∷ []) j no_request (omega arith))
      ]

module _ (kernel : Kernel) (debug : Bool) {k : ℕ} {e : EventedIo} {h : ℕ} {items : List Sqe}
    (q : Queued k e h items) where
  -- A push onto a full ring answers QueueIsFull, changes nothing and makes no system call.
  push-full :
      (request : Exec Sqe)
      → length items ≡ 2 ^ k
      → push kernel debug e request ≡ returns (e, queue_is_full)
  unfolding push
  push-full request full = rw (slot_none q full, push)

  -- A push onto a ring with room hands the kernel a ring in which the entry has joined those that
  -- wait, as the last, with every one of them unchanged.
  pub push_appends :
      (sqe : Sqe)
      → length items < 2 ^ k
      → (push kernel debug e (returns sqe) ≡ notify kernel debug (publish e e.sq_tail sqe))
        × Queued k (publish e e.sq_tail sqe) h (items ++ (sqe ∷ []))
  unfolding push
  push_appends sqe r = (rw (slot_free q r, push), publish-Queued q sqe r)

-- ===== src/Mpsc/Bounded/Threads/Safety.antt =====
-- What holds in every state that the threads can reach.
use shclog.Prelude.{
  ℕ, ◌+◌, ◌%◌, ◌^◌, ◌≤◌, ◌<◌, ◌≡◌, ◌⊎◌, inl, inr, sym, ap, ◌∙◌, true, arith, List, ◌++◌, get_or,
  none, some, length, drop, take-append-drop, length-drop,
}
use shclog.Mpsc.Bounded.{slot_of}
use shclog.Mpsc.Bounded.Window.{slot, mask_of_wrapped}
use shclog.Mpsc.Bounded.Threads.{storing, ready, releasing, System, Reach, at_rest}
use shclog.Mpsc.Bounded.Threads.Tally.{claims, excess, tally-rest}
use shclog.Mpsc.Bounded.Threads.Inv.{Ticket, Pending}
use shclog.Mpsc.Bounded.Threads.Steps.{Reach-Inv}

module _ {k n : ℕ} {s : System} (small : k ≤ 63) (few : n < 2 ^ 63) (r : Reach n (2 ^ k) s) where
  open (Reach-Inv small few r) use {counts, cells, fifo}

  -- With fewer than 2^63 producers and a capacity of at most 2^63, in every reachable state the
  -- consumer has taken out exactly the first items to which tickets were given, in ticket order,
  -- and at most 2^k tickets are outstanding.
  pub fifo_order : (rest : List ℕ) × (s.tickets ≡ s.given ++ rest) × (length rest ≤ 2 ^ k)
  fifo_order = (drop (length s.given) s.tickets, split, room)
    where
      split : s.tickets ≡ s.given ++ drop (length s.given) s.tickets
      split =
          sym (take-append-drop (length s.given) s.tickets)
          ∙ ap (λ xs. xs ++ drop (length s.given) s.tickets) (sym fifo)

      room : length (drop (length s.given) s.tickets) ≤ 2 ^ k
      room = omega (arith, counts.room, length-drop (length s.given) s.tickets)

  -- In every reachable state, a producer that is about to store finds an empty slot: no item is
  -- overwritten (the `assert(!rv)` of a debug build).
  pub store_vacant :
      (i h v : ℕ)
      → i < n
      → s.calls i ≡ storing h v
      → get_or s.queue.buffer (slot_of s.queue h) none ≡ none
  store_vacant i h v l at = let t = cells.pending i h v l at in rw (slot_eq t) t.vacant
    where
      slot_eq :
          (t : Ticket k (length s.given) (length s.tickets) s.queue.buffer s.tickets h v)
          → slot_of s.queue h ≡ t.number % 2 ^ k
      slot_eq t =
          rw (counts.mask, t.wrapped) (mask_of_wrapped k t.number (omega (arith, counts.small)))

  -- In every reachable state, the count is positive when the consumer is about to decrement it (the
  -- `assert(r > 0)` of a debug build).
  pub release_positive : (v : ℕ) → s.consumer ≡ releasing v → 0 < s.queue.count
  release_positive v at = ground (arith, counts.count, counts.order)

  -- In a reachable state where no call is under way, the count is the number of tickets that are
  -- outstanding, and the slot of each holds its item.
  pub quiet_contents :
      ((i : ℕ) → i < n → at_rest (s.calls i) ≡ true)
      → s.consumer ≡ ready
      → (s.queue.count + length s.given ≡ length s.tickets)
        × ((t : ℕ)
            → length s.given ≤ t
            → t < length s.tickets
            → slot s.queue.buffer (2 ^ k) t ≡ some (get_or s.tickets t 0))
  quiet_contents quiet at = (
    ground (arith, counts.count, tally-rest claims n s.calls, tally-rest excess n s.calls),
    λ t lo hi. held t (cells.cell t lo hi),
  )
    where
      held :
          (t : ℕ)
          → (slot s.queue.buffer (2 ^ k) t ≡ some (get_or s.tickets t 0))
            ⊎ Pending n s.calls s.tickets t
          → slot s.queue.buffer (2 ^ k) t ≡ some (get_or s.tickets t 0)
      held t (inl e) = e
      held t (inr (i, l, e)) = absurd (ground (arith, quiet i l))

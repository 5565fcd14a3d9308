-- ===== src/Mpsc/Bounded/Threads/Inv.antt =====
-- What holds between any two accesses, whichever threads have moved.
use shclog.Prelude.{
  ℕ, ◌+◌, ◌-◌, ◌%◌, ◌^◌, ◌≤◌, ◌<◌, ◌≡◌, ◌⊎◌, Option, none, some, List, length, get_or, take,
}
use shclog.Mpsc.Bounded.{Queue}
use shclog.Mpsc.Bounded.Window.{slot}
use shclog.Mpsc.Bounded.Threads.{Call, storing, Consumer, ready, releasing, System}
use shclog.Mpsc.Bounded.Threads.Tally.{claims, excess, tally}

-- A taken item is still counted until the consumer's second access.
abbrev pub busy : Consumer → ℕ
busy ready = 0
busy (releasing _) = 1

-- The counters, with `from` items taken out and `to` tickets given.
pub record Counts (k n : ℕ) (q : Queue) (calls : ℕ → Call) (c : Consumer) (from to : ℕ)
    : Type 0 where
  pub small : k ≤ 63
  pub few : n < 2 ^ 63
  pub max : q.max ≡ 2 ^ k
  pub mask : q.buf_mask ≡ 2 ^ k - 1
  pub head : q.head ≡ to % 2 ^ 64
  pub tail : q.tail ≡ from % 2 ^ k
  pub order : from ≤ to
  pub room : to + tally claims n calls + busy c ≤ from + 2 ^ k
  pub count : q.count + from ≡ to + tally claims n calls + tally excess n calls + busy c

-- The ticket that a call before its store holds.
pub record Ticket (k from to : ℕ) (buffer : List (Option ℕ)) (tickets : List ℕ) (h v : ℕ)
    : Type 0 where
  pub number : ℕ
  pub above : from ≤ number
  pub below : number < to
  pub wrapped : h ≡ number % 2 ^ 64
  pub item : v ≡ get_or tickets number 0
  pub vacant : slot buffer (2 ^ k) number ≡ none

-- A producer that has still to store the item of ticket `t`.
abbrev pub Pending : ℕ → (ℕ → Call) → List ℕ → ℕ → Type 0
Pending n calls tickets t =
    (i : ℕ) × (i < n) × (calls i ≡ storing (t % 2 ^ 64) (get_or tickets t 0))

-- The slots: each ticket in use has its item there, or a producer that will store it; the slots
-- of the next tickets are vacant.
pub record Cells (k n : ℕ) (buffer : List (Option ℕ)) (calls : ℕ → Call) (tickets : List ℕ)
    (from to : ℕ) : Type 0 where
  pub width : length buffer ≡ 2 ^ k
  pub pending : (i h v : ℕ) → i < n → calls i ≡ storing h v → Ticket k from to buffer tickets h v
  pub alone :
      (i j h v w : ℕ) → i < n → j < n → calls i ≡ storing h v → calls j ≡ storing h w → i ≡ j
  pub cell :
      (t : ℕ)
      → from ≤ t
      → t < to
      → (slot buffer (2 ^ k) t ≡ some (get_or tickets t 0)) ⊎ Pending n calls tickets t
  pub free : (t : ℕ) → to ≤ t → t < from + 2 ^ k → slot buffer (2 ^ k) t ≡ none

pub record Inv (k n : ℕ) (s : System) : Type 0 where
  pub counts : Counts k n s.queue s.calls s.consumer (length s.given) (length s.tickets)
  pub cells : Cells k n s.queue.buffer s.calls s.tickets (length s.given) (length s.tickets)
  pub fifo : s.given ≡ take (length s.given) s.tickets

-- ===== src/Mpsc/Slotted/Inv.antt =====
-- What holds between any two accesses of a slotted queue, and the slots of tickets.
use shclog.Prelude.{
  ℕ, ◌+◌, ◌-◌, ◌%◌, ◌^◌, ◌≤◌, ◌<◌, ◌≡◌, ◌⊎◌, sym, ap, ◌∙◌, Option, none, some, List, length, get_or,
  take, ticket_unique, arith, dec_lt,
}
use native.Mathlib.Nat.{mod-lt, mod-add-div, add-mod-mod}
use shclog.Mpsc.Slotted.{
  Cell, Call, taking, spinning, filling, marking, Consumer, ready, reading, freeing, System,
}

abbrev pub seq_at : (ℕ → Cell) → ℕ → ℕ → ℕ
seq_at b cap p = (b (p % cap)).seq

abbrev pub item_at : (ℕ → Cell) → ℕ → ℕ → Option ℕ
item_at b cap p = (b (p % cap)).item

-- The ticket that a call holds.
abbrev pub ticket_of : Call → Option ℕ
ticket_of (spinning pos v) = some pos
ticket_of (filling pos v) = some pos
ticket_of (marking pos v) = some pos
ticket_of call = none

-- What a call with a ticket knows, with `from` items given out and the tickets below `to` taken.
abbrev pub Mine : (cap from : ℕ) → (ℕ → Cell) → List ℕ → Call → Type 0
Mine cap from b tickets (spinning pos v) =
    (from ≤ pos) × (pos < length tickets) × (v ≡ get_or tickets pos 0)
Mine cap from b tickets (filling pos v) =
    (from ≤ pos) × (pos < length tickets) × (v ≡ get_or tickets pos 0) × (pos < from + cap)
Mine cap from b tickets (marking pos v) =
    (from ≤ pos)
    × (pos < length tickets)
    × (v ≡ get_or tickets pos 0)
    × (pos < from + cap)
    × (item_at b cap pos ≡ some v)
Mine cap from b tickets call = Unit {0}

-- The cell of ticket `p` waits for it, or has its item.
abbrev pub CellOf : (cap : ℕ) → (ℕ → Cell) → List ℕ → ℕ → Type 0
CellOf cap b tickets p =
    (seq_at b cap p ≡ p)
    ⊎ ((seq_at b cap p ≡ p + 1)
        × (p < length tickets)
        × (item_at b cap p ≡ some (get_or tickets p 0)))

abbrev pub ConsumerKnows : (cap from : ℕ) → (ℕ → Cell) → List ℕ → Consumer → Type 0
ConsumerKnows cap from b tickets ready = Unit {0}
ConsumerKnows cap from b tickets reading = (from < length tickets) × (seq_at b cap from ≡ from + 1)
ConsumerKnows cap from b tickets (freeing v) =
    (from < length tickets) × (seq_at b cap from ≡ from + 1) × (v ≡ some (get_or tickets from 0))

-- A ticket that is marked, or whose producer is under way.
abbrev pub Served : (cap from : ℕ) → (ℕ → Cell) → (ℕ → Call) → ℕ → Type 0
Served cap from b calls p =
    ((p < from + cap) × (seq_at b cap p ≡ p + 1)) ⊎ ((i : ℕ) × (ticket_of (calls i) ≡ some p))

pub record Cells (cap : ℕ) (b : ℕ → Cell) (calls : ℕ → Call) (c : Consumer) (tickets : List ℕ)
    (from : ℕ) : Type 0 where
  pub wide : 2 ≤ cap
  pub order : from ≤ length tickets
  pub cell : (p : ℕ) → from ≤ p → p < from + cap → CellOf cap b tickets p
  pub mine : (i : ℕ) → Mine cap from b tickets (calls i)
  pub unmarked : (i p : ℕ) → ticket_of (calls i) ≡ some p → p < from + cap → seq_at b cap p ≡ p
  pub unique : (i j p : ℕ) → ticket_of (calls i) ≡ some p → ticket_of (calls j) ≡ some p → i ≡ j
  pub served : (p : ℕ) → from ≤ p → p < length tickets → Served cap from b calls p
  pub consumer : ConsumerKnows cap from b tickets c

pub record Inv (k : ℕ) (s : System) : Type 0 where
  pub head : s.queue.head ≡ length s.tickets
  pub tail : s.queue.tail ≡ length s.given
  pub cells : Cells (2 ^ k) s.queue.buffer s.calls s.consumer s.tickets (length s.given)
  pub fifo : s.given ≡ take (length s.given) s.tickets

-- Two tickets less than `cap` apart that share a cell are one.
pub same_cell : (cap a b : ℕ) → a < b + cap → b < a + cap → a % cap ≡ b % cap → a ≡ b
same_cell cap a b l g e = elim (dec_lt a b) [
  | yes lt ↦ ticket_unique cap a b (omega arith) g e
  | no ge ↦ sym (ticket_unique cap b a (omega arith) l (sym e))
]

-- The ticket of the window from `from` on that shares the cell of `p`.
pub in_window :
    (cap from p : ℕ)
    → 0 < cap
    → from ≤ p
    → (q : ℕ) × (from ≤ q) × (q < from + cap) × (q ≤ p) × (q % cap ≡ p % cap)
in_window cap from p pos le = (
  from + (p - from) % cap,
  omega arith,
  omega (arith, mod-lt (p - from) pos),
  omega (arith, mod-add-div (p - from) cap),
  add-mod-mod from (p - from) cap ∙ ap (λ (t : ℕ). t % cap) (omega arith),
)

-- The ticket that a producer holds is not given out yet.
pub Mine-range :
    (cap from : ℕ) (b : ℕ → Cell) (tickets : List ℕ) (c : Call) (p : ℕ)
    → Mine cap from b tickets c
    → ticket_of c ≡ some p
    → (from ≤ p) × (p < length tickets)
Mine-range cap from b tickets (spinning pos v) p m e = ground arith
Mine-range cap from b tickets (filling pos v) p m e = ground arith
Mine-range cap from b tickets (marking pos v) p m e = ground arith
Mine-range cap from b tickets (taking v) p m e = ground arith
Mine-range cap from b tickets Call.idle p m e = ground arith
Mine-range cap from b tickets Call.returned p m e = ground arith

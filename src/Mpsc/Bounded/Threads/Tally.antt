-- ===== src/Mpsc/Bounded/Threads/Tally.antt =====
-- How many producers stand at a point, through the change of one of them.
use shclog.Prelude.{ℕ, zero, suc, ◌+◌, ◌≤◌, ◌<◌, ◌≡◌, refl, arith, dec_lt}
use shclog.Mpsc.Bounded.Threads.{Call, backing_off, ticketing, assign}

-- A claim on a slot that has no ticket yet.
abbrev pub claims : Call → ℕ
claims (ticketing _) = 1
claims _ = 0

-- A count beyond `max` that is about to be taken back.
abbrev pub excess : Call → ℕ
excess backing_off = 1
excess _ = 0

pub tally : (Call → ℕ) → ℕ → (ℕ → Call) → ℕ
tally w zero calls = 0
tally w (suc n) calls = w (calls n) + tally w n calls

tally-assign_beyond :
    (w : Call → ℕ) (n : ℕ) (calls : ℕ → Call) (i : ℕ) (c : Call)
    → n ≤ i
    → tally w n (assign calls i c) ≡ tally w n calls
unfolding tally
tally-assign_beyond w zero calls i c h = refl
tally-assign_beyond w (suc n) calls i c h = ground (arith, tally-assign_beyond w n calls i c)

pub tally-assign :
    (w : Call → ℕ) (n : ℕ) (calls : ℕ → Call) (i : ℕ) (c : Call)
    → i < n
    → tally w n (assign calls i c) + w (calls i) ≡ tally w n calls + w c
unfolding tally
tally-assign w zero calls i c h = absurd (omega arith)
tally-assign w (suc n) calls i c h = elim (dec_lt i n) [
  | yes l ↦ ground (arith, tally-assign w n calls i c l)
  | no l ↦ ground (arith, tally-assign_beyond w n calls i c)
]

pub tally-sum_le : (n : ℕ) (calls : ℕ → Call) → tally claims n calls + tally excess n calls ≤ n
unfolding tally
tally-sum_le zero calls = omega arith
tally-sum_le (suc n) calls = ground (arith, tally-sum_le n calls)

pub tally-start : (w : Call → ℕ) (n : ℕ) → w Call.idle ≡ 0 → tally w n (λ _. Call.idle) ≡ 0
unfolding tally
tally-start w zero h = refl
tally-start w (suc n) h = omega (arith, h, tally-start w n h)

pub tally-ge :
    (w : Call → ℕ) (n : ℕ) (calls : ℕ → Call) (i : ℕ) → i < n → w (calls i) ≤ tally w n calls
unfolding tally
tally-ge w zero calls i h = absurd (omega arith)
tally-ge w (suc n) calls i h = elim (dec_lt i n) [
  | yes l ↦ omega (arith, tally-ge w n calls i l)
  | no l ↦ ground (arith)
]

pub tally-rest :
    (w : Call → ℕ) (n : ℕ) (calls : ℕ → Call)
    → ((i : ℕ) → i < n → w (calls i) ≡ 0)
    → tally w n calls ≡ 0
unfolding tally
tally-rest w zero calls h = refl
tally-rest w (suc n) calls h =
    omega (arith, h n (omega arith), tally-rest w n calls (λ i l. h i (omega arith)))

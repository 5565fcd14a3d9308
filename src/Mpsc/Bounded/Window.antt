-- ===== src/Mpsc/Bounded/Window.antt =====
-- Tickets and slots. The ticket `t` goes to slot `t % cap`; tickets of one window of `cap` tickets
-- have slots of their own.
use shclog.Prelude.{
  ℕ, ◌+◌, ◌-◌, ◌%◌, ◌^◌, ◌≤◌, ◌<◌, ◌≡◌, ◌≢◌, sym, ◌∙◌, bit_and, List, Option, none, get_or, set,
  length, get_or-set_self, get_or-set_ne, ticket_unique, mask_of_word, arith, dec_lt,
}
use native.Mathlib.Nat.{mod-lt, mod-add-mod}

-- The head counter wraps at 2^64, and the slots do not notice.
pub mask_of_wrapped : (k t : ℕ) → k ≤ 64 → bit_and (t % 2 ^ 64) (2 ^ k - 1) ≡ t % 2 ^ k
mask_of_wrapped k t h = mask_of_word 64 k t h

-- The tail index steps through the slots.
pub next_tail :
    (k t : ℕ) → k ≤ 63 → bit_and ((t % 2 ^ k + 1) % 2 ^ 64) (2 ^ k - 1) ≡ (t + 1) % 2 ^ k
next_tail k t h = mask_of_wrapped k (t % 2 ^ k + 1) (omega arith) ∙ mod-add-mod t (2 ^ k) 1

module _ (buffer : List (Option ℕ)) (cap : ℕ) where
  abbrev pub slot : ℕ → Option ℕ
  slot t = get_or buffer (t % cap) none

-- A write to the slot of a ticket is seen there, and nowhere else in the ticket's window.
pub slot-set_self :
    (buffer : List (Option ℕ)) (cap t : ℕ) (x : Option ℕ)
    → 0 < cap
    → length buffer ≡ cap
    → slot (set buffer (t % cap) x) cap t ≡ x
slot-set_self buffer cap t x h e =
    get_or-set_self buffer (t % cap) x none (omega (arith, mod-lt t h))

pub slot-set_ne :
    (buffer : List (Option ℕ)) (cap a b : ℕ) (x : Option ℕ)
    → a ≢ b
    → a < b + cap
    → b < a + cap
    → slot (set buffer (a % cap) x) cap b ≡ slot buffer cap b
slot-set_ne buffer cap a b x ne h k = get_or-set_ne buffer (a % cap) (b % cap) x none apart
  where
    apart : a % cap ≢ b % cap
    apart e = elim (dec_lt a b) [
      | yes l ↦ ne (ticket_unique cap a b (omega arith) k e)
      | no l ↦ ne (sym (ticket_unique cap b a (omega arith) h (sym e)))
    ]

-- ===== src/Mpsc/Bounded/Threads/Oldest.antt =====
-- The slots when the consumer takes the oldest item.
use shclog.Prelude.{
  ℕ, ◌+◌, ◌%◌, ◌^◌, ◌≤◌, ◌<◌, ◌≡◌, ◌≢◌, sym, ap, ◌∙◌, ◌⊎◌, inl, inr, Option, none, some, List,
  get_or, set, arith, length-set, ℕ_discrete, dec_lt,
}
use native.Mathlib.Nat.{add-mod_right}
use shclog.Mpsc.Bounded.Window.{slot, slot-set_self, slot-set_ne}
use shclog.Mpsc.Bounded.Threads.{Call}
use shclog.Mpsc.Bounded.Threads.Inv.{Ticket, Pending, Cells}
use shclog.Mpsc.Bounded.Threads.Cells.{none-ne-some}

module _ {k n : ℕ} {buffer : List (Option ℕ)} {calls : ℕ → Call} {tickets : List ℕ} {from to : ℕ}
    (s : Cells k n buffer calls tickets from to) where
  -- What the consumer finds at the tail is the oldest ticket's item.
  pub oldest :
      (v : ℕ)
      → from ≤ to
      → to ≤ from + 2 ^ k
      → 2 ^ k ≤ 2 ^ 63
      → 0 < 2 ^ k
      → slot buffer (2 ^ k) from ≡ some v
      → (from < to) × (get_or tickets from 0 ≡ v)
  oldest v order room cap pos found = elim (dec_lt from to) [
    | yes l ↦ (l, held (s.cell from (omega arith) l))
    | no l ↦ absurd (vacant (s.free from (omega arith) (omega arith)))
  ]
    where
      vacant : slot buffer (2 ^ k) from ≢ none
      vacant e = ground arith

      held :
          (slot buffer (2 ^ k) from ≡ some (get_or tickets from 0)) ⊎ Pending n calls tickets from
          → get_or tickets from 0 ≡ v
      held (inl e) = ground arith
      held (inr (j, lj, e)) = absurd (not_pending (s.pending j _ _ lj e))
        where
          not_pending : Ticket k from to buffer tickets (from % 2 ^ 64) (get_or tickets from 0) → ⊥
          not_pending r =
              none-ne-some (sym r.vacant ∙ ap (λ (x : ℕ). slot buffer (2 ^ k) x) same ∙ found)
            where
              same : r.number ≡ from
              same = omega (arith, r.above, r.below, r.wrapped)

  -- The consumer takes the oldest item.
  pub Cells-take :
      (v : ℕ)
      → slot buffer (2 ^ k) from ≡ some v
      → from < to
      → to ≤ from + 2 ^ k
      → 0 < 2 ^ k
      → Cells k n (set buffer (from % 2 ^ k) none) calls tickets (from + 1) to
  Cells-take v found some_left room pos = record {
    width = length-set buffer (from % 2 ^ k) none ∙ s.width;
    pending = λ j h w lj e. later h w (s.pending j h w lj e);
    alone = s.alone;
    cell = λ t lo hi. kept t lo hi (s.cell t (omega arith) hi);
    free = λ t lo hi. elim (ℕ_discrete t (from + 2 ^ k)) [
      | yes e ↦
          ap (λ (x : ℕ). slot (set buffer (from % 2 ^ k) none) (2 ^ k) x) e
          ∙ ap (λ (x : ℕ). get_or (set buffer (from % 2 ^ k) none) x none)
              (add-mod_right from (2 ^ k))
          ∙ slot-set_self buffer (2 ^ k) from none pos s.width
      | no ne ↦ others t (omega arith) (omega arith) (omega arith) ∙ s.free t lo (omega arith)
    ];
  }
    where
      others :
          (t : ℕ)
          → from ≢ t
          → from ≤ t
          → t < from + 2 ^ k
          → slot (set buffer (from % 2 ^ k) none) (2 ^ k) t ≡ slot buffer (2 ^ k) t
      others t ne lo hi = slot-set_ne buffer (2 ^ k) from t none ne (omega arith) hi

      later :
          (h w : ℕ)
          → Ticket k from to buffer tickets h w
          → Ticket k (from + 1) to (set buffer (from % 2 ^ k) none) tickets h w
      later h w r = elim (ℕ_discrete from r.number) [
        | yes same ↦ absurd (filled same)
        | no ne ↦ record {
          number = r.number;
          above = omega (arith, r.above);
          below = r.below;
          wrapped = r.wrapped;
          item = r.item;
          vacant = others r.number ne r.above (omega (arith, r.below)) ∙ r.vacant;
        }
      ]
        where
          filled : from ≢ r.number
          filled same =
              none-ne-some (sym r.vacant ∙ ap (λ (x : ℕ). slot buffer (2 ^ k) x) (sym same) ∙ found)

      kept :
          (t : ℕ)
          → from + 1 ≤ t
          → t < to
          → (slot buffer (2 ^ k) t ≡ some (get_or tickets t 0)) ⊎ Pending n calls tickets t
          → (slot (set buffer (from % 2 ^ k) none) (2 ^ k) t ≡ some (get_or tickets t 0))
            ⊎ Pending n calls tickets t
      kept t lo hi (inl e) = inl (others t (omega arith) (omega arith) (omega arith) ∙ e)
      kept t lo hi (inr p) = inr p

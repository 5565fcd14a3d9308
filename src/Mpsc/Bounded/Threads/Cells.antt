-- ===== src/Mpsc/Bounded/Threads/Cells.antt =====
-- The slots through each access.
use shclog.Prelude.{
  ℕ, ◌+◌, ◌%◌, ◌^◌, ◌≤◌, ◌<◌, ◌≡◌, ◌≢◌, refl, sym, ap, ◌∙◌, ◌⊎◌, inl, inr, Bool, true, false,
  Option, none, some, List, [], ◌∷◌, ◌++◌, length, get_or, set, arith, length-set, get_or-append_lt,
  get_or-append_at, ℕ_discrete,
}
use shclog.Mpsc.Bounded.Window.{slot, slot-set_self, slot-set_ne}
use shclog.Mpsc.Bounded.Threads.{Call, storing, assign}
use shclog.Mpsc.Bounded.Threads.Inv.{Ticket, Pending, Cells}

abbrev pub is_storing : Call → Bool
is_storing (storing _ _) = true
is_storing _ = false

pub none-ne-some : {v : ℕ} → ¬ (none ≡ some v)
none-ne-some e = cc

-- A change of one call into one that stores nothing.
storing_before :
    (calls : ℕ → Call) (i j h v : ℕ) (c : Call)
    → is_storing c ≡ false
    → assign calls i c j ≡ storing h v
    → (calls j ≡ storing h v) × (i ≢ j)
storing_before calls i j h v c q e = elim (ℕ_discrete i j) [
  | yes same ↦ ground arith
  | no other ↦ (ground arith, other)
]

storing_after :
    (calls : ℕ → Call) (i j h v : ℕ) (c : Call)
    → i ≢ j
    → calls j ≡ storing h v
    → assign calls i c j ≡ storing h v
storing_after calls i j h v c ne e = ground arith

module _ {k n : ℕ} {buffer : List (Option ℕ)} {calls : ℕ → Call} {tickets : List ℕ} {from to : ℕ}
    (s : Cells k n buffer calls tickets from to) (i : ℕ) (l : i < n) where
  -- An access outside the slots.
  pub Cells-other :
      (c : Call)
      → is_storing (calls i) ≡ false
      → is_storing c ≡ false
      → Cells k n buffer (assign calls i c) tickets from to
  Cells-other c old new = record {
    width = s.width;
    pending = λ j h v lj e. s.pending j h v lj (storing_before calls i j h v c new e).0;
    alone = λ a b h v w la lb ea eb.
        s.alone a b h v w la lb (storing_before calls i a h v c new ea).0
          (storing_before calls i b h w c new eb).0;
    cell = λ t lo hi. kept t (s.cell t lo hi);
    free = s.free;
  }
    where
      kept :
          (t : ℕ)
          → (slot buffer (2 ^ k) t ≡ some (get_or tickets t 0)) ⊎ Pending n calls tickets t
          → (slot buffer (2 ^ k) t ≡ some (get_or tickets t 0))
            ⊎ Pending n (assign calls i c) tickets t
      kept t (inl e) = inl e
      kept t (inr (j, lj, e)) = inr (j, lj, storing_after calls i j _ _ c (ground arith) e)

  -- The access that takes the ticket `to`.
  pub Cells-ticket :
      (v : ℕ)
      → is_storing (calls i) ≡ false
      → length tickets ≡ to
      → to < from + 2 ^ k
      → from ≤ to
      → k ≤ 63
      → 2 ^ k ≤ 2 ^ 63
      → Cells k n buffer
          (assign calls i (storing (to % 2 ^ 64) v))
          (tickets ++ (v ∷ []))
          from
          (to + 1)
  Cells-ticket v old len room order small cap = record {
    width = s.width;
    pending = λ j h w lj e. elim (ℕ_discrete i j) [
      | yes same ↦ mine h w (ground arith)
      | no other ↦ theirs h w (s.pending j h w lj (before j h w other e))
    ];
    alone = λ a b h v' w la lb ea eb. elim (ℕ_discrete i a) [
      | yes ia ↦ elim (ℕ_discrete i b) [
        | yes ib ↦ sym ia ∙ ib
        | no nb ↦ absurd (clash h w (s.pending b h w lb (before b h w nb eb)) (ground arith))
      ]
      | no na ↦ elim (ℕ_discrete i b) [
        | yes ib ↦ absurd (clash h v' (s.pending a h v' la (before a h v' na ea)) (ground arith))
        | no nb ↦ s.alone a b h v' w la lb (before a h v' na ea) (before b h w nb eb)
      ]
    ];
    cell = λ t lo hi. elim (ℕ_discrete t to) [
      | yes e ↦ inr (i, l, rw (e, at_to) (ground arith))
      | no ne ↦ kept t (omega arith) (s.cell t lo (omega arith))
    ];
    free = λ t lo hi. s.free t (omega arith) hi;
  }
    where
      at_to : get_or (tickets ++ (v ∷ [])) to 0 ≡ v
      at_to = get_or-append_at tickets v 0 [] to (sym len)

      below_to : (t : ℕ) → t < to → get_or (tickets ++ (v ∷ [])) t 0 ≡ get_or tickets t 0
      below_to t h = get_or-append_lt tickets (v ∷ []) t 0 (omega arith)

      before :
          (j h w : ℕ)
          → i ≢ j
          → assign calls i (storing (to % 2 ^ 64) v) j ≡ storing h w
          → calls j ≡ storing h w
      before j h w ne e = ground arith

      mine :
          (h w : ℕ)
          → storing (to % 2 ^ 64) v ≡ storing h w
          → Ticket k from (to + 1) buffer (tickets ++ (v ∷ [])) h w
      mine h w e = record {
        number = to;
        above = order;
        below = omega arith;
        wrapped = ground arith;
        item = ground (arith, at_to);
        vacant = s.free to (omega arith) room;
      }

      theirs :
          (h w : ℕ)
          → Ticket k from to buffer tickets h w
          → Ticket k from (to + 1) buffer (tickets ++ (v ∷ [])) h w
      theirs h w r = record {
        number = r.number;
        above = r.above;
        below = omega (arith, r.below);
        wrapped = r.wrapped;
        item = r.item ∙ sym (below_to r.number r.below);
        vacant = r.vacant;
      }

      clash : (h w : ℕ) → Ticket k from to buffer tickets h w → h ≢ to % 2 ^ 64
      clash h w r e = omega (arith, r.above, r.below, r.wrapped)

      kept :
          (t : ℕ)
          → t < to
          → (slot buffer (2 ^ k) t ≡ some (get_or tickets t 0)) ⊎ Pending n calls tickets t
          → (slot buffer (2 ^ k) t ≡ some (get_or (tickets ++ (v ∷ [])) t 0))
            ⊎ Pending n (assign calls i (storing (to % 2 ^ 64) v)) (tickets ++ (v ∷ [])) t
      kept t h (inl e) = inl (e ∙ ap some (sym (below_to t h)))
      kept t h (inr (j, lj, e)) =
          inr (j, lj, storing_after calls i j _ _ _ (ground arith) (rw (below_to t h) e))

  -- The store of the ticket's item.
  pub Cells-store :
      (h v : ℕ) (result : Bool)
      → calls i ≡ storing h v
      → (r : Ticket k from to buffer tickets h v) → to ≤ from + 2 ^ k
      → 2 ^ k ≤ 2 ^ 63
      → 0 < 2 ^ k
      → Cells k n
          (set buffer (r.number % 2 ^ k) (some v))
          (assign calls i (Call.returned result))
          tickets
          from
          to
  Cells-store h v result at r room cap pos = record {
    width = length-set buffer (r.number % 2 ^ k) (some v) ∙ s.width;
    pending = λ j h' w lj e. theirs j h' w lj e;
    alone = λ a b h' v' w la lb ea eb.
        s.alone a b h' v' w la lb (storing_before calls i a h' v' (Call.returned result) refl ea).0
          (storing_before calls i b h' w (Call.returned result) refl eb).0;
    cell = λ t lo hi. elim (ℕ_discrete t r.number) [
      | yes e ↦
          inl (rw e (slot-set_self buffer (2 ^ k) r.number (some v) pos s.width ∙ ap some r.item))
      | no ne ↦ kept t lo hi ne (s.cell t lo hi)
    ];
    free =
        λ t lo hi. others t (omega (arith, r.below)) (omega (arith, r.above)) hi ∙ s.free t lo hi;
  }
    where
      others :
          (t : ℕ)
          → t ≢ r.number
          → from ≤ t
          → t < from + 2 ^ k
          → slot (set buffer (r.number % 2 ^ k) (some v)) (2 ^ k) t ≡ slot buffer (2 ^ k) t
      others t ne lo hi =
          slot-set_ne buffer (2 ^ k) r.number t (some v) (λ e. ne (sym e)) (omega (arith, r.below))
            (omega (arith, r.above))

      theirs :
          (j h' w : ℕ)
          → j < n
          → assign calls i (Call.returned result) j ≡ storing h' w
          → Ticket k from to (set buffer (r.number % 2 ^ k) (some v)) tickets h' w
      theirs j h' w lj e =
          let (e', ne) = storing_before calls i j h' w (Call.returned result) refl e in
          let p = s.pending j h' w lj e' in
          record {
            number = p.number;
            above = p.above;
            below = p.below;
            wrapped = p.wrapped;
            item = p.item;
            vacant =
                others p.number
                  (λ same. ne (
                    s.alone i j h v w l lj at (
                      e'
                      ∙ ap (λ (x : ℕ). storing x w)
                          (p.wrapped ∙ ap (λ (x : ℕ). x % 2 ^ 64) same ∙ sym r.wrapped))))
                  p.above (omega (arith, p.below))
                ∙ p.vacant;
          }

      kept :
          (t : ℕ)
          → from ≤ t
          → t < to
          → t ≢ r.number
          → (slot buffer (2 ^ k) t ≡ some (get_or tickets t 0)) ⊎ Pending n calls tickets t
          → (slot (set buffer (r.number % 2 ^ k) (some v)) (2 ^ k) t ≡ some (get_or tickets t 0))
            ⊎ Pending n (assign calls i (Call.returned result)) tickets t
      kept t lo hi ne (inl e) = inl (others t ne lo (omega arith) ∙ e)
      kept t lo hi ne (inr (j, lj, e)) =
          inr (j, lj, storing_after calls i j _ _ _ (λ same. ne (number_of same)) e)
        where
          number_of : i ≡ j → t ≡ r.number
          number_of same = omega (arith, r.above, r.below, r.wrapped, wraps)
            where
              wraps : h ≡ t % 2 ^ 64
              wraps = ground (arith)

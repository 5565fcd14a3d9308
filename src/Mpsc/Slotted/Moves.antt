-- ===== src/Mpsc/Slotted/Moves.antt =====
-- The accesses of a producer keep what is known of the cells.
use shclog.Prelude.{
  ℕ, ◌+◌, ◌%◌, ◌≤◌, ◌<◌, ◌≡◌, ◌≢◌, ◌⊎◌, inl, inr, sym, ap, refl, ◌∙◌, none, some, List, [], ◌∷◌,
  ◌++◌, length, get_or, arith, ℕ_discrete, dec_lt, length-append, get_or-append_lt,
  get_or-append_at, Bool-cases, ◌==◌, ==_iff,
}
use shclog.Mpsc.Slotted.{
  Cell, Call, idle, taking, spinning, filling, marking, returned, Consumer, ready, reading, freeing,
  assign,
}
use shclog.Mpsc.Slotted.Inv.{
  seq_at, ticket_of, Mine, CellOf, ConsumerKnows, Served, Cells, same_cell, in_window, Mine-range,
}

-- A fact about every call, from that about the changed one and those about the others.
pub on_assign :
    (P : Call → Type 0) (calls : ℕ → Call) (i j : ℕ) (c : Call)
    → (i ≡ j → P c)
    → (i ≢ j → P (calls j))
    → P (assign calls i c j)
on_assign P calls i j c new old = elim (ℕ_discrete i j) [
  | yes e ↦ rw ((==_iff i j).1 e) (new e)
  | no ne ↦ elim (Bool-cases (i == j)) [
    | inl t ↦ absurd (ne ((==_iff i j).0 t))
    | inr f ↦ rw f (old ne)
  ]
]

-- What is known stays known when one more ticket is taken.
module _ (cap : ℕ) (b : ℕ → Cell) (tickets : List ℕ) (from v : ℕ) where
  longer : length (tickets ++ (v ∷ [])) ≡ length tickets + 1
  longer = length-append tickets (v ∷ [])

  same_item : (p : ℕ) → p < length tickets → get_or tickets p 0 ≡ get_or (tickets ++ (v ∷ [])) p 0
  same_item p l = sym (get_or-append_lt tickets (v ∷ []) p 0 l)

  CellOf-later : (p : ℕ) → CellOf cap b tickets p → CellOf cap b (tickets ++ (v ∷ [])) p
  CellOf-later p (inl w) = inl w
  CellOf-later p (inr (w, l, m)) = inr (w, omega (arith, longer), m ∙ ap some (same_item p l))

  Mine-later : (d : Call) → Mine cap from b tickets d → Mine cap from b (tickets ++ (v ∷ [])) d
  Mine-later (spinning pos w) (lo, hi, e) = (lo, omega (arith, longer), e ∙ same_item pos hi)
  Mine-later (filling pos w) (lo, hi, e, n) = (lo, omega (arith, longer), e ∙ same_item pos hi, n)
  Mine-later (marking pos w) (lo, hi, e, n, m) =
      (lo, omega (arith, longer), e ∙ same_item pos hi, n, m)
  Mine-later idle m = tt
  Mine-later (taking w) m = tt
  Mine-later returned m = tt

  ConsumerKnows-later :
      (d : Consumer)
      → ConsumerKnows cap from b tickets d
      → ConsumerKnows cap from b (tickets ++ (v ∷ [])) d
  ConsumerKnows-later ready m = tt
  ConsumerKnows-later reading (l, e) = (omega (arith, longer), e)
  ConsumerKnows-later (freeing w) (l, e, m) =
      (omega (arith, longer), e, m ∙ ap some (same_item from l))

module _ {cap : ℕ} {b : ℕ → Cell} {calls : ℕ → Call} {c : Consumer} {tickets : List ℕ} {from : ℕ}
    (s : Cells cap b calls c tickets from) (i : ℕ) where
  pub ticket_kept :
      (new : Call) (j : ℕ)
      → ticket_of new ≡ ticket_of (calls i)
      → ticket_of (assign calls i new j) ≡ ticket_of (calls j)
  ticket_kept new j e =
      on_assign (λ (d : Call). ticket_of d ≡ ticket_of (calls j)) calls i j new
        (λ same. e ∙ ap (λ (m : ℕ). ticket_of (calls m)) same) (λ _. refl)

  Served-kept :
      (new : Call) (p : ℕ)
      → ticket_of new ≡ ticket_of (calls i)
      → Served cap from b calls p
      → Served cap from b (assign calls i new) p
  Served-kept new p e (inl m) = inl m
  Served-kept new p e (inr (j, h)) = inr (j, ticket_kept new j e ∙ h)

  -- A step that changes neither a cell nor the ticket of the call.
  pub Cells-same :
      (new : Call)
      → ticket_of new ≡ ticket_of (calls i)
      → Mine cap from b tickets new
      → Cells cap b (assign calls i new) c tickets from
  Cells-same new e m = record {
    wide = s.wide;
    order = s.order;
    cell = s.cell;
    mine = λ j. on_assign (Mine cap from b tickets) calls i j new (λ _. m) (λ _. s.mine j);
    unmarked = λ j p h. s.unmarked j p (sym (ticket_kept new j e) ∙ h);
    unique =
        λ j l p h g. s.unique j l p (sym (ticket_kept new j e) ∙ h) (sym (ticket_kept new l e) ∙ g);
    served = λ p lo hi. Served-kept new p e (s.served p lo hi);
    consumer = s.consumer;
  }

  -- A producer passes its cell's test only when the ticket is within `cap` of the items given out.
  pub spin_hit : (pos v : ℕ) → calls i ≡ spinning pos v → seq_at b cap pos ≡ pos → pos < from + cap
  spin_hit pos v at hit = elim (dec_lt pos (from + cap)) [
    | yes l ↦ l
    | no far ↦
        let known = Mine-range cap from b tickets (calls i) pos (s.mine i) (ap ticket_of at) in
        let (q, lo, hi, le, same) = in_window cap from pos (omega (arith, s.wide)) known.0 in
        absurd (beyond q lo hi le same (ap (λ (t : ℕ). (b t).seq) same) (s.cell q lo hi) far)
  ]
    where
      beyond :
          (q : ℕ)
          → from ≤ q
          → q < from + cap
          → q ≤ pos
          → q % cap ≡ pos % cap
          → seq_at b cap q ≡ seq_at b cap pos
          → CellOf cap b tickets q
          → ¬ (pos < from + cap)
          → ⊥
      beyond q lo hi le same e (inl w) far = omega arith
      beyond q lo hi le same e (inr (w, _, _)) far =
          omega (
            arith,
            s.wide,
            same_cell cap q pos (omega (arith, s.wide)) (omega (arith, s.wide)) same,
          )

  ticket_taken :
      (v j p : ℕ)
      → ticket_of (calls i) ≡ none
      → ticket_of (assign calls i (spinning (length tickets) v) j) ≡ some p
      → ((i ≡ j) × (p ≡ length tickets)) ⊎ ((i ≢ j) × (ticket_of (calls j) ≡ some p))
  ticket_taken v j p none_yet e = elim (ℕ_discrete i j) [
    | yes same ↦ inl (same, ground arith)
    | no other ↦ inr (other, ground arith)
  ]

  -- The access that takes the next ticket.
  pub Cells-ticket :
      (v : ℕ)
      → ticket_of (calls i) ≡ none
      → Cells cap b (assign calls i (spinning (length tickets) v)) c (tickets ++ (v ∷ [])) from
  Cells-ticket v none_yet = record {
    wide = s.wide;
    order = omega (arith, s.order, longer cap b tickets from v);
    cell = λ p lo hi. CellOf-later cap b tickets from v p (s.cell p lo hi);
    mine = λ j.
        on_assign (Mine cap from b (tickets ++ (v ∷ []))) calls i j (spinning (length tickets) v)
          (λ _. (
            s.order,
            omega (arith, longer cap b tickets from v),
            sym (get_or-append_at tickets v 0 [] (length tickets) refl),
          ))
          (λ _. Mine-later cap b tickets from v (calls j) (s.mine j));
    unmarked = λ j p h l. vacant j p l (ticket_taken v j p none_yet h);
    unique = λ j l p h g. one j l p (ticket_taken v j p none_yet h) (ticket_taken v l p none_yet g);
    served = λ p lo hi. elim (ℕ_discrete p (length tickets)) [
      | yes e ↦ inr (i, ground arith)
      | no ne ↦ held p (s.served p lo (omega (arith, longer cap b tickets from v)))
    ];
    consumer = ConsumerKnows-later cap b tickets from v c s.consumer;
  }
    where
      waits : (p : ℕ) → p ≡ length tickets → CellOf cap b tickets p → seq_at b cap p ≡ p
      waits p e (inl w) = w
      waits p e (inr (w, l, m)) = absurd (omega arith)

      vacant :
          (j p : ℕ)
          → p < from + cap
          → ((i ≡ j) × (p ≡ length tickets)) ⊎ ((i ≢ j) × (ticket_of (calls j) ≡ some p))
          → seq_at b cap p ≡ p
      vacant j p l (inl (same, e)) = waits p e (s.cell p (omega (arith, s.order)) l)
      vacant j p l (inr (other, h)) = s.unmarked j p h l

      one :
          (j l p : ℕ)
          → ((i ≡ j) × (p ≡ length tickets)) ⊎ ((i ≢ j) × (ticket_of (calls j) ≡ some p))
          → ((i ≡ l) × (p ≡ length tickets)) ⊎ ((i ≢ l) × (ticket_of (calls l) ≡ some p))
          → j ≡ l
      one j l p (inl (same, e)) (inl (same', e')) = sym same ∙ same'
      one j l p (inl (same, e)) (inr (other, h)) =
          absurd (omega (arith, (Mine-range cap from b tickets (calls l) p (s.mine l) h).1))
      one j l p (inr (other, h)) (inl (same, e)) =
          absurd (omega (arith, (Mine-range cap from b tickets (calls j) p (s.mine j) h).1))
      one j l p (inr (other, h)) (inr (other', h')) = s.unique j l p h h'

      held :
          (p : ℕ)
          → Served cap from b calls p
          → Served cap from b (assign calls i (spinning (length tickets) v)) p
      held p (inl m) = inl m
      held p (inr (j, h)) = inr (j, ground arith)

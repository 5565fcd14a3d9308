-- ===== src/Mpsc/Slotted/Steps.antt =====
-- Every step of a producer of a slotted queue keeps the invariant.
use shclog.Prelude.{
  ℕ, ◌+◌, ◌%◌, ◌^◌, ◌<◌, ◌≡◌, inl, inr, sym, ap, subst, refl, ◌∙◌, Bool, true, false, none, some,
  List, [], ◌∷◌, ◌++◌, length, length-append, take-append_le, arith, Bool-cases, ◌==◌, ==_iff,
  if◌then◌else◌, bit_and-mask, ltb,
}
use mathlib.Core.List.{append-nil}
use native.Mathlib.Nat.{mod-eq_of_lt}
use shclog.Mpsc.Slotted.{
  Cell, Call, idle, taking, spinning, filling, marking, returned, Consumer, put, lt_isize, index,
  produce, consume, System, assign, ticketed, given_out, at_rest, invoke_at,
}
use shclog.Mpsc.Slotted.Inv.{ticket_of, Mine, Cells, Inv, Mine-range}
use shclog.Mpsc.Slotted.Moves.{Cells-same, Cells-ticket, spin_hit}
use shclog.Mpsc.Slotted.Writes.{Cells-filled}
use shclog.Mpsc.Slotted.Marked.{Cells-marked}

pub lt_isize_small : (a b : ℕ) → a < 2 ^ 63 → b < 2 ^ 63 → lt_isize a b ≡ ltb a b
lt_isize_small a b h g = ground arith

module _ {k : ℕ} {s : System} (inv : Inv k s) (room : length s.tickets + 2 ^ k < 2 ^ 63) where
  open inv use {head, tail, cells, fifo}

  -- A step that leaves the history alone.
  quiet :
      (b : ℕ → Cell) (i : ℕ) (c : Call)
      → Cells (2 ^ k) b (assign s.calls i c) s.consumer s.tickets (length s.given)
      → Inv k (record s {
        queue = record s.queue { buffer = b };
        calls = assign s.calls i c;
        tickets = s.tickets ++ [];
      })
  quiet b i c now =
      subst
        (λ (xs : List ℕ). Inv k (record s {
          queue = record s.queue { buffer = b };
          calls = assign s.calls i c;
          tickets = xs;
        }))
        (sym (append-nil s.tickets)) (record { head = head; tail = tail; cells = now; fifo = fifo })

  -- the state after the access of a producer that stands at `c`
  abbrev moved : ℕ → Call → System
  moved i c = record s {
    queue = (produce k s.queue c).0;
    calls = assign s.calls i ((produce k s.queue c).1);
    tickets = s.tickets ++ ticketed c;
  }

  pub index_eq : (pos : ℕ) → pos % 2 ^ k ≡ index k pos
  index_eq pos = sym (bit_and-mask pos k)

  pub moved-Inv : (i : ℕ) (c : Call) → s.calls i ≡ c → Inv k (moved i c)
  unfolding produce
  moved-Inv i idle at =
      quiet s.queue.buffer i idle (Cells-same cells i idle (sym (ap ticket_of at)) tt)
  moved-Inv i returned at =
      quiet s.queue.buffer i returned (Cells-same cells i returned (sym (ap ticket_of at)) tt)
  moved-Inv i (taking v) at = record {
    head =
        ap (λ (t : ℕ). (t + 1) % 2 ^ 64) head
        ∙ mod-eq_of_lt (omega arith)
        ∙ sym (length-append s.tickets (v ∷ []));
    tail = tail;
    cells =
        subst
          (λ (h : ℕ).
            Cells (2 ^ k) s.queue.buffer (assign s.calls i (spinning h v)) s.consumer
              (s.tickets ++ (v ∷ [])) (length s.given))
          (sym head) (Cells-ticket cells i v (ap ticket_of at));
    fifo = fifo ∙ sym (take-append_le (length s.given) s.tickets (v ∷ []) cells.order);
  }
  moved-Inv i (spinning pos v) at =
      quiet s.queue.buffer i
        (if (s.queue.buffer (index k pos)).seq == pos then filling pos v else spinning pos v)
        (elim (Bool-cases ((s.queue.buffer (index k pos)).seq == pos)) [
          | inl hit ↦ chosen (sym (if_true (spinning pos v) hit)) (
              Cells-same cells i (filling pos v) (sym (ap ticket_of at))
                (known.0, known.1, known.2, in_range hit))
          | inr miss ↦
              chosen (sym (if_false (filling pos v) miss))
                (Cells-same cells i (spinning pos v) (sym (ap ticket_of at)) known)
        ])
    where
      known : Mine (2 ^ k) (length s.given) s.queue.buffer s.tickets (spinning pos v)
      known = subst (Mine (2 ^ k) (length s.given) s.queue.buffer s.tickets) at (cells.mine i)

      chosen :
          {c d : Call}
          → c ≡ d
          → Cells (2 ^ k) s.queue.buffer (assign s.calls i c) s.consumer s.tickets (length s.given)
          → Cells (2 ^ k) s.queue.buffer (assign s.calls i d) s.consumer s.tickets (length s.given)
      chosen e =
          subst
            (λ (c : Call).
              Cells (2 ^ k) s.queue.buffer (assign s.calls i c) s.consumer s.tickets
                (length s.given))
            e

      if_true : {t : Bool} {c : Call} (d : Call) → t ≡ true → (if t then c else d) ≡ c
      if_true d e = rw e refl

      if_false : {t : Bool} (c : Call) {d : Call} → t ≡ false → (if t then c else d) ≡ d
      if_false c e = rw e refl

      in_range : ((s.queue.buffer (index k pos)).seq == pos) ≡ true → pos < length s.given + 2 ^ k
      in_range hit = spin_hit cells i pos v at (
          ap (λ (x : ℕ). (s.queue.buffer x).seq) (index_eq pos)
          ∙ (==_iff ((s.queue.buffer (index k pos)).seq) pos).0 hit)
  moved-Inv i (filling pos v) at = quiet _ i (marking pos v) (
      subst
        (λ (x : ℕ).
          Cells (2 ^ k) (put s.queue.buffer x (record (s.queue.buffer x) { item = some v }))
            (assign s.calls i (marking pos v)) s.consumer s.tickets (length s.given))
        (index_eq pos) (Cells-filled cells i pos v at))
  moved-Inv i (marking pos v) at = quiet _ i returned (
      subst
        (λ (x : ℕ).
          Cells (2 ^ k)
            (put s.queue.buffer x (record (s.queue.buffer x) { seq = (pos + 1) % 2 ^ 64 }))
            (assign s.calls i returned) s.consumer s.tickets (length s.given))
        (index_eq pos)
        (subst
          (λ (n : ℕ).
            Cells (2 ^ k)
              (put s.queue.buffer (pos % 2 ^ k) (record (s.queue.buffer (pos % 2 ^ k)) { seq = n }))
              (assign s.calls i returned) s.consumer s.tickets (length s.given))
          (sym (
            mod-eq_of_lt (
              omega (
                arith,
                Mine-range (2 ^ k) (length s.given) s.queue.buffer s.tickets (s.calls i) pos
                    (cells.mine i) (ap ticket_of at),
              ))))
          (Cells-marked cells i pos v at)))

  pub invoke-Inv : (i v : ℕ) → at_rest (s.calls i) ≡ true → Inv k (invoke_at s i v)
  invoke-Inv i v rest = record {
    head = head;
    tail = tail;
    cells = Cells-same cells i (taking v) (no_ticket (s.calls i) rest) tt;
    fifo = fifo;
  }
    where
      no_ticket : (c : Call) → at_rest c ≡ true → none ≡ ticket_of c
      no_ticket idle h = refl
      no_ticket returned h = refl
      no_ticket (taking w) h = refl
      no_ticket (spinning p w) h = cc
      no_ticket (filling p w) h = cc
      no_ticket (marking p w) h = cc

  -- the state after the access of a consumer that stands at `c`
  abbrev pub consumed : Consumer → System
  consumed c = record s {
    queue = (consume k s.queue c).0;
    consumer = (consume k s.queue c).1;
    given = s.given ++ given_out c;
  }

-- ===== src/Mpsc/Slotted/Runs.antt =====
-- Every run of the slotted queue keeps the invariant.
use shclog.Prelude.{
  ℕ, zero, suc, ◌+◌, ◌^◌, ◌≤◌, ◌<◌, ◌≡◌, inl, refl, none, some, length, length-append, arith,
}
use native.Mathlib.Nat.{mod-eq_of_lt, one-le-pow, pow-succ'}
use shclog.Mpsc.Slotted.{System, ticketed, Step, invoke, move, start, Reach, begin, next}
use shclog.Mpsc.Slotted.Inv.{Inv}
use shclog.Mpsc.Slotted.Steps.{invoke-Inv, moved-Inv}
use shclog.Mpsc.Slotted.Consumed.{consumed-Inv}

two-le-pow : (k : ℕ) → 1 ≤ k → 2 ≤ 2 ^ k
two-le-pow zero h = absurd (omega arith)
two-le-pow (suc k) h = omega (arith, pow-succ' 2 k, one-le-pow k 2 (omega arith))

-- The state at the start.
start-Inv : (k : ℕ) → 1 ≤ k → Inv k (start k)
start-Inv k h = record {
  head = refl;
  tail = refl;
  cells = record {
    wide = two-le-pow k h;
    order = omega arith;
    cell = λ p lo hi. inl (mod-eq_of_lt (omega arith));
    mine = λ i. tt;
    unmarked = λ i p e l. mod-eq_of_lt (omega arith);
    unique = λ i j p e f. absurd (no_ticket e);
    served = λ p lo hi. absurd (omega arith);
    consumer = tt;
  };
  fifo = refl;
}
  where
    no_ticket : {x : ℕ} → ¬ (none ≡ some x)
    no_ticket e = cc

-- The tickets only grow.
Step-tickets : {k : ℕ} {s t : System} → Step k s t → length s.tickets ≤ length t.tickets
Step-tickets (invoke i v rest) = omega arith
Step-tickets {s} (move i) = omega (arith, length-append s.tickets (ticketed (s.calls i)))
Step-tickets Step.take = omega arith

Step-Inv :
    {k : ℕ} {s t : System} → Inv k s → length s.tickets + 2 ^ k < 2 ^ 63 → Step k s t → Inv k t
Step-Inv inv room (invoke i v rest) = invoke-Inv inv room i v rest
Step-Inv {s} inv room (move i) = moved-Inv inv room i (s.calls i) refl
Step-Inv {s} inv room Step.take = consumed-Inv inv room s.consumer refl

pub Reach-Inv :
    {k : ℕ} {s : System} → 1 ≤ k → length s.tickets + 2 ^ k < 2 ^ 63 → Reach k s → Inv k s
Reach-Inv {k} h room begin = start-Inv k h
Reach-Inv {k} h room (next {s} r st) =
    let before : length s.tickets + 2 ^ k < 2 ^ 63 = omega (arith, Step-tickets st) in
    Step-Inv (Reach-Inv h before r) before st

-- ===== src/Mpsc/Linked/Runs.antt =====
-- Every run of the linked queue keeps the invariant.
use shclog.Prelude.{
  ℕ, zero, suc, ◌≡◌, sym, ◌∙◌, ap, refl, subst, true, not, Option, none, some, [], ◌∷◌, arith, ◌==◌,
}
use shclog.Mpsc.Linked.{Push, done, ready, System, Step, invoke, move, start, Reach, begin, next}
use shclog.Mpsc.Linked.Chain.{node_at, brings, links, Knows, pushes_of, Inv}
use shclog.Mpsc.Linked.Steps.{move-Inv, invoke-Inv}
use shclog.Mpsc.Linked.Pops.{pop_at-Inv}

start-Inv : Inv start
start-Inv = record {
  from = 0;
  head = λ p e. head_zero p;
  tail = refl;
  chain = record {
    some_node = omega arith;
    distinct = λ p q lo hi lo' hi' e. omega arith;
    linked = λ p lo hi. absurd (omega arith);
    last = λ p e. refl;
    knows = λ w. subst (Knows (0 ∷ []) 0 (λ _. none)) (sym (all_done w)) tt;
    one_bringer = λ w v n e f. absurd (no_node brings refl w n e);
    one_linker = λ w v n e f. absurd (no_node links refl w n e);
    stub_bringer = λ w e. absurd (no_node brings refl w 0 e);
    outside = λ n o p lo hi e. not_owned p n o e;
    not_stub = λ n o z. not_zero n o z;
    not_brought = λ n w o e. no_node brings refl w n e;
  };
  consumer = tt;
  fifo = refl;
}
  where
    head_zero : (p : ℕ) → 0 ≡ node_at (0 ∷ []) p
    head_zero zero = refl
    head_zero (suc p) = refl

    all_done : (w : ℕ) → pushes_of (λ _. done) ready w ≡ done
    all_done zero = refl
    all_done (suc i) = refl

    no_node :
        (f : Push → Option ℕ)
        → f done ≡ none
        → (w n : ℕ) → f (pushes_of (λ _. done) ready w) ≡ some n
        → ⊥
    no_node f e w n g = ground (arith, e, ap f (all_done w))

    not_zero : (n : ℕ) → not (n == 0) ≡ true → n ≡ 0 → ⊥
    not_zero n o z = ground arith

    not_owned : (p n : ℕ) → not (n == 0) ≡ true → node_at (0 ∷ []) p ≡ n → ⊥
    not_owned p n o e = not_zero n o (sym e ∙ sym (head_zero p))

Step-Inv : {s t : System} → Inv s → Step s t → Inv t
Step-Inv {s} inv (invoke i n rest mine) = invoke-Inv s inv i n rest mine
Step-Inv {s} inv (move i) = move-Inv s inv i
Step-Inv {s} inv Step.take = pop_at-Inv s inv

-- Every state that the threads can reach.
pub Reach-Inv : {s : System} → Reach s → Inv s
Reach-Inv begin = start-Inv
Reach-Inv (next r st) = Step-Inv (Reach-Inv r) st

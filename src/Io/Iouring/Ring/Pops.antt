-- ===== src/Io/Iouring/Ring/Pops.antt =====
-- `pop_write`, `pop_writev` and `pop_read`: a completion taken from the ring, and what it reports.
use shclog.Prelude.{ℕ, zero, suc, ◌+◌, ◌%◌, ◌^◌, ◌≡◌, refl, Bool, true, false, List, [], ◌∷◌}
use shclog.Prelude.Int.{ℤ, pos, negsuc}
use shclog.Io.Exec.{Exec, returns, aborts, undefined, Expected, value, unexpected}
use shclog.Io.Outcomes.{settle_completion-Fails}
use shclog.Io.Iouring.Completions.{
  WritevError, WriteError, ReadError, settle_completion, writev_result, write_result, read_result,
  writev_cases, write_cases, read_cases, unexpected_writev, unexpected_write, unexpected_read,
}
use shclog.Io.Iouring.Ring.{
  EventedIo, Kernel, PopError, completion_check_error, ring_empty, enter_args, pop_one,
}
use shclog.Io.Iouring.Ring.Complete.{Completed, Taken, empty, oldest, EndsAs, pop_one-EndsAs}

-- `std::variant<PopError, E>`
pub data PopFailure (E : Type 0) : Type 0 where
  not_taken : PopError → PopFailure E
  reported : E → PopFailure E

abbrev pub Popped : Type 0 → Type 0
Popped E = EventedIo × Expected ℕ (PopFailure E)

abbrev pub report : {E : Type 0} → EventedIo → Exec (Expected ℕ E) → Exec (Popped E)
report e (returns (value n)) = returns (e, value n)
report e (returns (unexpected x)) = returns (e, unexpected (reported x))
report e aborts = aborts
report e undefined = undefined

abbrev pub after_pop :
    {E : Type 0}
    → (ℤ → Exec (Expected ℕ E))
    → Exec (EventedIo × Expected ℤ PopError)
    → Exec (Popped E)
after_pop result (returns (e, value rc)) = report e (result rc)
after_pop result (returns (e, unexpected x)) = returns (e, unexpected (not_taken x))
after_pop result aborts = aborts
after_pop result undefined = undefined

module _ (kernel : Kernel) (debug : Bool) where
  unfoldable pub pop_writev : EventedIo → Exec (Popped WritevError)
  pop_writev e = after_pop (writev_result debug) (pop_one kernel debug e)

  unfoldable pub pop_write : EventedIo → Exec (Popped WriteError)
  pop_write e = after_pop (write_result debug) (pop_one kernel debug e)

  unfoldable pub pop_read : EventedIo → Exec (Popped ReadError)
  pop_read e = after_pop (read_result debug) (pop_one kernel debug e)

-- How a pop of a release build ends when the wait returned `rc` with `errno`, and left the completion
-- ring of `e` with `results` waiting: the error of the wait, the empty ring, or the oldest result,
-- taken, as a byte count or an error.
abbrev pub Reports :
    {E : Type 0} → (k : ℕ) → EventedIo → ℕ → ℤ → ℤ → List ℤ → Exec (Popped E) → Type 0
Reports k e h (negsuc n) (pos zero) results r = r ≡ undefined
Reports k e h (negsuc n) (pos (suc errno)) results r =
    r ≡ returns (e, unexpected (not_taken completion_check_error))
Reports k e h (negsuc n) (negsuc errno) results r =
    r ≡ returns (e, unexpected (not_taken completion_check_error))
Reports k e h (pos n) errno [] r = r ≡ returns (e, unexpected (not_taken ring_empty))
Reports k e h (pos n) errno (pos b ∷ rest) r =
    (e' : EventedIo) × Completed k e' (h + 1) rest × (r ≡ returns (e', value (b % 2 ^ 32)))
Reports {E} k e h (pos n) errno (negsuc b ∷ rest) r =
    (e' : EventedIo) × Completed k e' (h + 1) rest
    × (x : E) × (r ≡ returns (e', unexpected (reported x)))

module _ {E : Type 0} (cases : List (List ℕ × E)) (other : E) where
  -- the function that reads a completion
  abbrev result : ℤ → Exec (Expected ℕ E)
  result = settle_completion false cases other

  Taken-Reports :
      (k : ℕ) (e : EventedIo) (h n : ℕ) (errno : ℤ) (results : List ℤ)
      (p : EventedIo × Expected ℤ PopError)
      → Taken k e h results p
      → Reports k e h (pos n) errno results (after_pop result (returns p))
  Taken-Reports k e h n errno [] _ empty = refl
  Taken-Reports k e h n errno (pos b ∷ rest) _ (oldest {e' = e'} c) = (e', c, refl)
  Taken-Reports k e h n errno (negsuc b ∷ rest) _ (oldest {e' = e'} c) =
      let (x, fails) = settle_completion-Fails cases other b in (e', c, x, rw fails refl)

  after_pop-Reports :
      (k : ℕ) (e : EventedIo) (h : ℕ) (rc errno : ℤ) (results : List ℤ)
      (r : Exec (EventedIo × Expected ℤ PopError))
      → EndsAs false k e h results rc errno r
      → Reports k e h rc errno results (after_pop result r)
  after_pop-Reports k e h (pos n) errno results r (p, is, taken) =
      rw is (Taken-Reports k e h n errno results p taken)
  after_pop-Reports k e h (negsuc n) (pos zero) results r is = rw is refl
  after_pop-Reports k e h (negsuc n) (pos (suc errno)) results r is = rw is refl
  after_pop-Reports k e h (negsuc n) (negsuc errno) results r is = rw is refl

-- In a release build each of the three pops ends by the kernel's wait and the completion ring that it
-- leaves: a failed wait is CompletionCheckError (with the errno 0 undefined behaviour) and takes
-- nothing; an empty ring is RingEmpty; else the oldest completion is taken, and the others stay in
-- order: a byte count is the answer, as a u32, and a negative code is an error.
pub pops-Report :
    (kernel : Kernel) (e e' : EventedIo) (rc errno : ℤ) (k h : ℕ) (results : List ℤ)
    → kernel (enter_args e 0 1 true false) e ≡ (e', rc, errno)
    → Completed k e' h results
    → Reports k e' h rc errno results (pop_writev kernel false e)
      × Reports k e' h rc errno results (pop_write kernel false e)
      × Reports k e' h rc errno results (pop_read kernel false e)
unfolding pop_writev pop_write pop_read writev_result write_result read_result
pops-Report kernel e e' rc errno k h results waited c =
    let ends = pop_one-EndsAs kernel false e e' rc errno k h results waited c in
    (
      after_pop-Reports writev_cases unexpected_writev k e' h rc errno results _ ends,
      after_pop-Reports write_cases unexpected_write k e' h rc errno results _ ends,
      after_pop-Reports read_cases unexpected_read k e' h rc errno results _ ends,
    )

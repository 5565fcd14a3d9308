-- ===== src/Io/Iouring/Ring/Complete.antt =====
-- The completion ring: `pop_one` takes the oldest result, once.
use shclog.Prelude.{
  ℕ, zero, suc, refl, ◌+◌, ◌-◌, ◌%◌, ◌^◌, ◌≤◌, ◌<◌, ◌≡◌, ap, sym, subst, ◌∙◌, bit_and, Bool, true,
  false, not, ◌&&◌, if◌then◌else◌, List, [], ◌∷◌, length, get_or, arith, mask_of_word,
}
use shclog.Prelude.Int.{ℤ, pos, negsuc}
use shclog.Io.Exec.{Exec, aborts, undefined, member, returns, Expected, value, unexpected}
use shclog.Io.Iouring.Ring.{
  EventedIo, Kernel, PopError, ring_empty, completion_check_error, add_u32, enter_args,
  take_completion, pop_one,
}
use shclog.Io.Iouring.Calls.{io_uring_enter}
use shclog.Io.Iouring.Ring.Submit.{ring_bounds}

-- A completion ring of 2^k entries from which `h` results have been taken, and `results` wait.
pub record Completed (k : ℕ) (e : EventedIo) (h : ℕ) (results : List ℤ) : Type 0 where
  pub small : k ≤ 31
  pub mask : e.cq_mask ≡ 2 ^ k - 1
  pub head : e.cq_head ≡ h % 2 ^ 32
  pub tail : e.cq_tail ≡ (h + length results) % 2 ^ 32
  pub room : length results ≤ 2 ^ k
  pub entries :
      (j : ℕ)
      → j < length results
      → get_or e.cqes ((h + j) % 2 ^ k) (pos 0) ≡ get_or results j (pos 0)

-- what `take_completion` answers and leaves behind, by the results that wait
pub data Taken (k : ℕ) (e : EventedIo) (h : ℕ)
    : List ℤ → EventedIo × Expected ℤ PopError → Type 0 where
  empty : Taken k e h [] (e, unexpected ring_empty)
  oldest :
      {x : ℤ} {rest : List ℤ} {e' : EventedIo}
      → Completed k e' (h + 1) rest
      → Taken k e h (x ∷ rest) (e', value x)

pub nonempty :
    {k : ℕ} {e : EventedIo} {h : ℕ} {x : ℤ} {rest : List ℤ}
    → Completed k e h (x ∷ rest)
    → take_completion e ≡ (record e { cq_head = add_u32 e.cq_head 1 }, value x)
unfolding take_completion
nonempty {k} {e} {h} {x} c = ground (arith, c.head, c.tail, c.room, ring_bounds k c.small, first)
  where
    first : get_or e.cqes (bit_and e.cq_head e.cq_mask) (pos 0) ≡ x
    first =
        rw (c.head, c.mask)
          (ap (λ (i : ℕ). get_or e.cqes i (pos 0))
              (mask_of_word 32 k h (omega (arith, c.small))
                ∙ ap (λ (i : ℕ). i % 2 ^ k) (omega arith))
            ∙ c.entries 0 (omega arith))

nothing :
    {k : ℕ} {e : EventedIo} {h : ℕ}
    → Completed k e h []
    → take_completion e ≡ (e, unexpected ring_empty)
unfolding take_completion
nothing c = ground (arith, c.head, c.tail)

take_completion-Taken :
    {k : ℕ} {e : EventedIo} {h : ℕ} (results : List ℤ)
    → Completed k e h results
    → Taken k e h results (take_completion e)
take_completion-Taken [] c = rw (nothing c) empty
take_completion-Taken {k} {e} {h} (x ∷ rest) c = rw (nonempty c) (
    oldest (record {
      small = c.small;
      mask = c.mask;
      head = omega (arith, c.head);
      tail = omega (arith, c.tail);
      room = omega (arith, c.room);
      entries = λ j l.
          ap (λ (i : ℕ). get_or e.cqes (i % 2 ^ k) (pos 0)) {x = h + 1 + j} (omega arith)
          ∙ c.entries (suc j) (omega arith);
    }))

-- What `pop_one` makes of the result of the wait.
abbrev after_wait :
    {E : Type 0} → EventedIo → Exec (Expected ℕ E) → Exec (EventedIo × Expected ℤ PopError)
after_wait e (returns (value n)) = returns (take_completion e)
after_wait e (returns (unexpected x)) = returns (e, unexpected completion_check_error)
after_wait e aborts = aborts
after_wait e undefined = undefined

enter_result :
    (kernel : Kernel) (debug : Bool) (e : EventedIo) (r : EventedIo × ℤ × ℤ)
    → kernel (enter_args e 0 1 true false) e ≡ r
    → pop_one kernel debug e ≡ after_wait r.0 (io_uring_enter debug r.1 r.2)
unfolding pop_one
enter_result kernel debug e r waited =
    ap (λ (x : EventedIo × ℤ × ℤ). after_wait x.0 (io_uring_enter debug x.1 x.2)) waited

-- The codes that `pop_one` reports in a debug build as well; at any other a debug build aborts.
abbrev pub is_expected : ℤ → Bool
is_expected (pos errno) = member (11 ∷ 16 ∷ 53 ∷ 77 ∷ []) errno
is_expected (negsuc errno) = false

-- How `pop_one` ends when the wait returned `rc` with the thread's `errno`, and left the completion
-- ring of `e` with `results` waiting.
abbrev pub EndsAs :
    Bool
    → (k : ℕ) → EventedIo
    → ℕ
    → List ℤ
    → ℤ
    → ℤ
    → Exec (EventedIo × Expected ℤ PopError)
    → Type 0
EndsAs debug k e h results (pos n) errno r =
    (p : EventedIo × Expected ℤ PopError) × (r ≡ returns p) × Taken k e h results p
EndsAs debug k e h results (negsuc n) (pos zero) r = r ≡ undefined
EndsAs debug k e h results (negsuc n) (pos (suc errno)) r = r ≡ (
    if debug && not (is_expected (pos (suc errno)))
    then aborts
    else returns (e, unexpected completion_check_error))
EndsAs debug k e h results (negsuc n) (negsuc errno) r =
    r ≡ (if debug then aborts else returns (e, unexpected completion_check_error))

-- What follows the wait.
after_wait-EndsAs :
    (debug : Bool) (k : ℕ) (e : EventedIo) (h : ℕ) (results : List ℤ) (rc errno : ℤ)
    → Completed k e h results
    → EndsAs debug k e h results rc errno (after_wait e (io_uring_enter debug rc errno))
unfolding io_uring_enter
after_wait-EndsAs debug k e h results (pos n) errno c =
    (take_completion e, refl, take_completion-Taken results c)
after_wait-EndsAs debug k e h results (negsuc n) (pos zero) c = refl
after_wait-EndsAs true k e h results (negsuc n) (pos (suc errno)) c = ground arith
after_wait-EndsAs false k e h results (negsuc n) (pos (suc errno)) c = ground arith
after_wait-EndsAs true k e h results (negsuc n) (negsuc errno) c = refl
after_wait-EndsAs false k e h results (negsuc n) (negsuc errno) c = refl

-- After the kernel's wait, which leaves `results` in the completion ring: when the wait succeeds,
-- `pop_one` answers RingEmpty and takes nothing if there are none, and otherwise answers the oldest
-- result and leaves the ring with the others, in order. When the wait fails, `pop_one` answers
-- CompletionCheckError and takes nothing; a debug build aborts at an errno that the wrapper of the
-- call has no case for, and a failure with the errno 0 is `std::unreachable()`.
pub pop_one-EndsAs :
    (kernel : Kernel) (debug : Bool) (e e' : EventedIo) (rc errno : ℤ) (k h : ℕ) (results : List ℤ)
    → kernel (enter_args e 0 1 true false) e ≡ (e', rc, errno)
    → Completed k e' h results
    → EndsAs debug k e' h results rc errno (pop_one kernel debug e)
pop_one-EndsAs kernel debug e e' rc errno k h results waited c =
    subst (EndsAs debug k e' h results rc errno)
      (sym (enter_result kernel debug e (e', rc, errno) waited))
      (after_wait-EndsAs debug k e' h results rc errno c)

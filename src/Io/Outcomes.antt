-- ===== src/Io/Outcomes.antt =====
-- What the callers of the wrappers may rely on: a success is a value, a failure is an error, and
-- `std::unreachable()` is not reached.
use shclog.Prelude.{
  ℕ, ◌<◌, ◌≡◌, ◌≢◌, ◌↔◌, sym, ◌∙◌, Bool, true, false, List, [], ◌∷◌, arith, Option-cases, inl, inr,
}
use shclog.Prelude.Int.{ℤ, pos, negsuc}
use shclog.Io.Exec.{Exec, returns, undefined, Expected, unexpected, switch, member}
use shclog.Io.Errno.{Errno}
use shclog.Io.Syscall.{e_errno, io_uring_errno, settle}
use shclog.Io.File.{
  OpenError, retryable_without_cache, asks_cached, open_cases, open_file, WriteError, WritevError,
  ReadError, pwrite64, pwritev, pread,
}
use shclog.Io.Mmap.{Mapping, MmapError, mmap}
use shclog.Io.Iouring.Calls.{
  SetupError, EnterError, RegisterError, io_uring_setup, io_uring_enter, io_uring_register,
}
use shclog.Io.File
use shclog.Io.Mmap
use shclog.Io.Iouring.Calls
use shclog.Io.Iouring.Completions
use shclog.Io.Iouring.Completions.{settle_completion, writev_result, write_result, read_result}

-- In a release build the call returns an error.
abbrev pub Fails : {T E : Type 0} → Exec (Expected T E) → Type 0
Fails {T} {E} r = (e : E) × (r ≡ returns (unexpected e))

settle-Fails :
    {T E : Type 0} (cases : List (List ℕ × E)) (other : E) (code : Errno) (v : T)
    → code ≢ 0
    → Fails (settle false cases other code v)
settle-Fails cases other code v h = elim (Option-cases (switch cases code)) [
  | inl e ↦ (other, ground arith)
  | inr (a, e) ↦ (a, ground arith)
]

pub settle_completion-Fails :
    {E : Type 0} (cases : List (List ℕ × E)) (other : E) (n : ℕ)
    → Fails (settle_completion false cases other (negsuc n))
settle_completion-Fails cases other n =
    elim (Option-cases (switch cases (io_uring_errno (negsuc n)))) [
      | inl e ↦ (other, ground arith)
      | inr (a, e) ↦ (a, ground arith)
    ]

settle_completion-defined :
    {E : Type 0} (debug : Bool) (cases : List (List ℕ × E)) (other : E) (rc : ℤ)
    → settle_completion debug cases other rc ≢ undefined
settle_completion-defined debug cases other (pos n) = λ e. cc
settle_completion-defined true cases other (negsuc n) =
    elim (Option-cases (switch cases (io_uring_errno (negsuc n)))) [
      | inl e ↦ λ u. ground arith
      | inr (a, e) ↦ λ u. ground arith
    ]
settle_completion-defined {E} false cases other (negsuc n) =
    let (e, r) = settle_completion-Fails cases other n in λ u. absurd (apart e (sym r ∙ u))
  where
    apart : (e : E) → ¬ (◌≡◌ {A = Exec (Expected ℕ E)} (returns (unexpected e)) undefined)
    apart e u = cc

-- Whatever result code a completion of one of the three kinds of request holds, in either build, the
-- function that reads it does not reach `std::unreachable()`; a negative code is an error in a release
-- build.
pub completions_settle :
    (debug : Bool) (rc : ℤ) (n : ℕ)
    → (writev_result debug rc ≢ undefined)
      × (write_result debug rc ≢ undefined)
      × (read_result debug rc ≢ undefined)
      × Fails (writev_result false (negsuc n))
      × Fails (write_result false (negsuc n))
      × Fails (read_result false (negsuc n))
unfolding writev_result write_result read_result
completions_settle debug rc n = (
  settle_completion-defined debug Completions.writev_cases Completions.unexpected_writev rc,
  settle_completion-defined debug Completions.write_cases Completions.unexpected_write rc,
  settle_completion-defined debug Completions.read_cases Completions.unexpected_read rc,
  settle_completion-Fails Completions.writev_cases Completions.unexpected_writev n,
  settle_completion-Fails Completions.write_cases Completions.unexpected_write n,
  settle_completion-Fails Completions.read_cases Completions.unexpected_read n,
)

enter-Fails :
    (n errno : ℕ)
    → e_errno (negsuc n) (pos errno) ≢ 0
    → Fails (io_uring_enter false (negsuc n) (pos errno))
unfolding io_uring_enter
enter-Fails n errno h =
    elim (Option-cases (switch Calls.enter_cases (e_errno (negsuc n) (pos errno)))) [
      | inl e ↦ (Calls.unexpected_enter, ground arith)
      | inr (a, e) ↦ (a, ground arith)
    ]

-- With a positive `errno`, a failed call of any of the wrappers is an error in a release build,
-- never a value.
pub calls_fail :
    (resolve size_of len n errno : ℕ)
    → 0 < errno
    → Fails (open_file false resolve (negsuc n) (pos errno))
      × Fails (pwrite64 false (negsuc n) (pos errno))
      × Fails (pwritev false (negsuc n) (pos errno))
      × Fails (pread false (negsuc n) (pos errno))
      × Fails (mmap false size_of len (negsuc 0) (pos errno))
      × Fails (io_uring_setup false (negsuc n) (pos errno))
      × Fails (io_uring_enter false (negsuc n) (pos errno))
      × Fails (io_uring_register false (negsuc n) (pos errno))
unfolding open_file pwrite64 pwritev pread mmap io_uring_setup io_uring_enter io_uring_register
calls_fail resolve size_of len n errno h = (
  settle-Fails (open_cases resolve) File.unexpected_open _ _ code,
  settle-Fails [] File.unexpected_write _ _ code,
  settle-Fails [] File.unexpected_writev _ _ code,
  settle-Fails File.read_cases File.unexpected_read _ _ code,
  settle-Fails Mmap.mmap_cases Mmap.unexpected_mmap _ _ code,
  settle-Fails Calls.setup_cases Calls.unexpected_setup _ _ code,
  enter-Fails n errno code,
  settle-Fails Calls.register_cases Calls.unexpected_register _ _ code,
)
  where
    code : e_errno (negsuc n) (pos errno) ≢ 0
    code e = ground arith

-- `open` answers RetryableWithoutCache exactly when the caller asked for a cached lookup and the
-- kernel's code is AGAIN, BUSY or TXTBSY.
open-retryable :
    (debug : Bool) (resolve n errno : ℕ)
    → (open_file debug resolve (negsuc n) (pos errno)
        ≡ returns (unexpected retryable_without_cache))
      ↔ ((asks_cached resolve ≡ true) × (member (11 ∷ 16 ∷ 26 ∷ []) errno ≡ true))
unfolding open_file
open-retryable debug resolve n errno = (λ h. ground arith, λ h. ground arith)

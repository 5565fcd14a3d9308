-- ===== src/Lang.antt =====
-- `unwrap` of include/shclog/lang.hpp, in a debug and in a release build.
use shclog.Prelude.{
  ℕ, ◌≡◌, Bool, true, false, ◌==◌, if◌then◌else◌, List, refl, Bool-cases, Option-cases, inl, inr,
}
use shclog.Io.Exec.{Exec, returns, aborts, ◌>>=◌, Expected, value, unexpected, switch}
use shclog.Io.Errno
use shclog.Io.Errno.{Errno}
use shclog.Io.Syscall.{settle, debug_e_errno}

unfoldable pub unwrap : {T E : Type 0} → Expected T E → Exec T
unwrap (value v) = returns v
unwrap (unexpected e) = aborts

-- `unwrap` of a `ResultEnum`, for the test `e == E::Success`.
unfoldable pub unwrap_result : {E : Type 0} → (is_success : E → Bool) → E → Exec (Unit {0})
unwrap_result is_success e = if is_success e then returns tt else aborts

default_aborts :
    {T E : Type 0} (debug : Bool) (other : E)
    → (debug_e_errno {A = Expected T E} debug (unexpected other) >>= unwrap) ≡ aborts
unfolding unwrap
default_aborts true other = refl
default_aborts false other = refl

-- What a wrapper of a system call returns, unwrapped at once: a success yields its value, and any
-- failure aborts, in a release build as well.
settle-unwrap :
    {T E : Type 0} (debug : Bool) (cases : List (List ℕ × E)) (other : E) (code : Errno) (v : T)
    → (settle debug cases other code v >>= unwrap)
      ≡ (if code == Errno.success then returns v else aborts)
unfolding unwrap
settle-unwrap debug cases other code v = elim (Bool-cases (code == Errno.success)) [
  | inl ok ↦ rw ok refl
  | inr failed ↦ rw failed (elim (Option-cases (switch cases code)) [
    | inl e ↦ rw e (default_aborts debug other)
    | inr (a, e) ↦ rw e refl
  ])
]

-- ===== src/Io/Syscall.antt =====
-- src/shclog/io/syscall.cpp: from what a call returned to an `Errno`.
use shclog.Prelude.{ℕ, suc, ltb, ◌==◌, Bool, true, false, if◌then◌else◌, none, some, List}
use shclog.Prelude.Int.{ℤ, pos, negsuc}
use shclog.Io.Exec.{Exec, returns, aborts, Expected, value, unexpected, switch}
use shclog.Io.Errno
use shclog.Io.Errno.{Errno}

-- `_errno_out_of_bounds`
abbrev pub errno_out_of_bounds : ℤ → Bool
errno_out_of_bounds (pos e) = ltb Errno.nsrcnameloop e
errno_out_of_bounds (negsuc e) = true

-- `static_cast<Errno>(e)` of an `e` in bounds
abbrev pub checked_errno : ℤ → Errno
checked_errno (pos e) = if errno_out_of_bounds (pos e) then Errno.unexpected_errno else e
checked_errno (negsuc e) = Errno.unexpected_errno

-- `e_errno(rc)`, with the thread's `errno` as an argument.
abbrev pub e_errno : ℤ → ℤ → Errno
e_errno (pos rc) errno = Errno.success
e_errno (negsuc rc) errno = checked_errno errno

-- `e_errno(const void *)`: only the pointer `(void *)-1` is a failure.
abbrev pub e_errno_ptr : ℤ → ℤ → Errno
e_errno_ptr (pos rc) errno = Errno.success
e_errno_ptr (negsuc rc) errno = if rc == 0 then e_errno (negsuc 0) errno else Errno.success

-- The completion of an io_uring request holds `-errno`.
abbrev pub io_uring_errno : ℤ → Errno
io_uring_errno (pos rc) = Errno.success
io_uring_errno (negsuc rc) = checked_errno (pos (suc rc))

-- A pthread function returns the code itself.
abbrev pub from_errno : ℕ → Errno
from_errno rc =
    if rc == 0
    then Errno.success
    else if ltb Errno.nsrcnameloop rc
    then Errno.unexpected_errno
    else rc

-- `debug_e_errno`, then the statement after it: a debug build aborts.
abbrev pub debug_e_errno : {A : Type 0} → Bool → A → Exec A
debug_e_errno true a = aborts
debug_e_errno false a = returns a

-- The body that the wrappers share: a success yields the value, a code of a case its error, any
-- other code is reported by `debug_e_errno` and is `Unexpected`.
abbrev pub settle : {T E : Type 0} → Bool → List (List ℕ × E) → E → Errno → T → Exec (Expected T E)
settle debug cases other code v =
    if code == Errno.success then returns (value v) else elim (switch cases code) [
      | none ↦ debug_e_errno debug (unexpected other)
      | some e ↦ returns (unexpected e)
    ]

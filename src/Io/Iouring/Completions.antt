-- ===== src/Io/Iouring/Completions.antt =====
-- What `pop_write`, `pop_writev` and `pop_read` of `EventedIo` make of a completion's result code,
-- once `pop_one` has returned it.
use shclog.Prelude.{ℕ, ◌^◌, ◌==◌, Bool, if◌then◌else◌, none, some, List, [], ◌∷◌}
use shclog.Prelude.Int.{ℤ, pos, negsuc, to_unsigned}
use shclog.Io.Exec.{Exec, returns, undefined, Expected, value, unexpected, switch}
use shclog.Io.Errno
use shclog.Io.Syscall.{io_uring_errno, debug_e_errno}

pub data WritevError : Type 0 where
  bad_iovecs_size access_denied temporarily_unavailable no_space_left : WritevError
  bad_fd write_failed terminated unexpected_writev : WritevError

pub data WriteError : Type 0 where
  bad_buffer_size access_denied temporarily_unavailable no_space_left : WriteError
  bad_fd write_failed terminated unexpected_write : WriteError

pub data ReadError : Type 0 where
  temporarily_unavailable bad_fd fd_is_dir bad_buffer unexpected_read : ReadError

-- The body that the three share: a code that is not negative is the number of bytes; of the others,
-- SUCCESS would be `std::unreachable()`.
abbrev pub settle_completion : {E : Type 0} → Bool → List (List ℕ × E) → E → ℤ → Exec (Expected ℕ E)
settle_completion debug cases other (pos rc) = returns (value (to_unsigned (2 ^ 32) (pos rc)))
settle_completion debug cases other (negsuc rc) =
    let code = io_uring_errno (negsuc rc) in
    if code == Errno.success then undefined else elim (switch cases code) [
      | none ↦ debug_e_errno debug (unexpected other)
      | some e ↦ returns (unexpected e)
    ]

abbrev pub writev_cases : List (List ℕ × WritevError)
writev_cases =
    (Errno.inval ∷ Errno.fbig ∷ Errno.range ∷ [], bad_iovecs_size)
    ∷ (Errno.again ∷ Errno.dquot ∷ [], temporarily_unavailable)
    ∷ (Errno.badf ∷ Errno.pipe ∷ Errno.destaddrreq ∷ Errno.netdown ∷ Errno.netunreach ∷ [], bad_fd)
    ∷ (Errno.intr ∷ [], terminated)
    ∷ (Errno.nospc ∷ [], no_space_left)
    ∷ (Errno.nxio ∷ [], write_failed)
    ∷ (Errno.acces ∷ [], access_denied)
    ∷ []

unfoldable pub writev_result : Bool → ℤ → Exec (Expected ℕ WritevError)
writev_result debug = settle_completion debug writev_cases unexpected_writev

abbrev pub write_cases : List (List ℕ × WriteError)
write_cases =
    (Errno.inval ∷ Errno.fbig ∷ Errno.range ∷ [], bad_buffer_size)
    ∷ (Errno.again ∷ Errno.dquot ∷ [], WriteError.temporarily_unavailable)
    ∷ (
      Errno.badf ∷ Errno.pipe ∷ Errno.destaddrreq ∷ Errno.netdown ∷ Errno.netunreach ∷ [],
      WriteError.bad_fd,
    )
    ∷ (Errno.intr ∷ [], WriteError.terminated)
    ∷ (Errno.nospc ∷ [], WriteError.no_space_left)
    ∷ (Errno.nxio ∷ [], WriteError.write_failed)
    ∷ (Errno.acces ∷ [], WriteError.access_denied)
    ∷ []

unfoldable pub write_result : Bool → ℤ → Exec (Expected ℕ WriteError)
write_result debug = settle_completion debug write_cases unexpected_write

abbrev pub read_cases : List (List ℕ × ReadError)
read_cases =
    (Errno.again ∷ [], ReadError.temporarily_unavailable)
    ∷ (Errno.badf ∷ [], ReadError.bad_fd)
    ∷ (Errno.inval ∷ [], bad_buffer)
    ∷ (Errno.isdir ∷ [], fd_is_dir)
    ∷ []

unfoldable pub read_result : Bool → ℤ → Exec (Expected ℕ ReadError)
read_result debug = settle_completion debug read_cases unexpected_read

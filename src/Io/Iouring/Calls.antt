-- ===== src/Io/Iouring/Calls.antt =====
-- The three system calls of src/shclog/io/iouring.cpp.
use shclog.Prelude.{ℕ, ◌^◌, ◌==◌, Bool, if◌then◌else◌, none, some, List, [], ◌∷◌}
use shclog.Prelude.Int.{ℤ, pos, negsuc, to_i32, to_unsigned}
use shclog.Io.Exec.{Exec, returns, undefined, Expected, value, unexpected, switch}
use shclog.Io.Errno
use shclog.Io.Syscall.{e_errno, settle, debug_e_errno}

pub data SetupError : Type 0 where
  no_such_fd permission_denied process_fd_quota_exceeded system_fd_quota_exceeded : SetupError
  out_of_memory unexpected_setup : SetupError

abbrev pub setup_cases : List (List ℕ × SetupError)
setup_cases =
    (Errno.mfile ∷ [], process_fd_quota_exceeded)
    ∷ (Errno.nfile ∷ [], system_fd_quota_exceeded)
    ∷ (Errno.nomem ∷ [], out_of_memory)
    ∷ (Errno.perm ∷ [], permission_denied)
    ∷ (Errno.nxio ∷ [], no_such_fd)
    ∷ []

unfoldable pub io_uring_setup : Bool → ℤ → ℤ → Exec (Expected ℤ SetupError)
io_uring_setup debug rc errno =
    settle debug setup_cases unexpected_setup (e_errno rc errno) (to_i32 rc)

pub data EnterError : Type 0 where
  resources_temporarily_unavailable bad_fd_for_ring ring_is_disabled : EnterError
  completion_queue_is_full submission_queue_is_full unexpected_enter : EnterError

abbrev pub enter_cases : List (List ℕ × EnterError)
enter_cases =
    (Errno.again ∷ [], resources_temporarily_unavailable)
    ∷ (Errno.badfd ∷ [], ring_is_disabled)
    ∷ (Errno.badr ∷ [], completion_queue_is_full)
    ∷ (Errno.busy ∷ [], submission_queue_is_full)
    ∷ []

-- A failed call with the code 0 would be `std::unreachable()`.
unfoldable pub io_uring_enter : Bool → ℤ → ℤ → Exec (Expected ℕ EnterError)
io_uring_enter debug (pos rc) errno = returns (value (to_unsigned (2 ^ 32) (pos rc)))
io_uring_enter debug (negsuc rc) errno =
    let code = e_errno (negsuc rc) errno in
    if code == Errno.success then undefined else elim (switch enter_cases code) [
      | none ↦ debug_e_errno debug (unexpected unexpected_enter)
      | some e ↦ returns (unexpected e)
    ]

pub data RegisterError : Type 0 where
  access_denied registrations_already_in_place bad_fd bad_buffers bad_request : RegisterError
  too_many_files out_of_mem registration_failed unexpected_register : RegisterError

abbrev pub register_cases : List (List ℕ × RegisterError)
register_cases =
    (Errno.inval ∷ Errno.fault ∷ Errno.opnotsupp ∷ Errno.noent ∷ [], bad_request)
    ∷ (Errno.acces ∷ Errno.exist ∷ [], access_denied)
    ∷ (Errno.badf ∷ [], bad_fd)
    ∷ (Errno.busy ∷ [], registrations_already_in_place)
    ∷ (Errno.mfile ∷ [], too_many_files)
    ∷ (Errno.nomem ∷ [], out_of_mem)
    ∷ (Errno.nxio ∷ [], registration_failed)
    ∷ []

unfoldable pub io_uring_register : Bool → ℤ → ℤ → Exec (Expected ℕ RegisterError)
io_uring_register debug rc errno =
    settle debug register_cases unexpected_register (e_errno rc errno) (to_unsigned (2 ^ 32) rc)

-- ===== src/Io/File.antt =====
-- src/shclog/io/file.cpp: opening, reading and writing. What the kernel answers, `rc` and the
-- thread's `errno`, is an argument of each wrapper; `debug` tells a debug build from a release one.
use shclog.Prelude.{ℕ, ◌^◌, ◌/◌, ◌%◌, ◌==◌, Bool, if◌then◌else◌, List, [], ◌∷◌}
use shclog.Prelude.Int.{ℤ, to_i32, to_unsigned}
use shclog.Io.Exec.{Exec, returns, Expected}
use shclog.Io.Errno
use shclog.Io.Syscall.{e_errno, debug_e_errno, settle}

pub data OpenError : Type 0 where
  retryable_without_cache path_contains_link path_crosses_mount invalid_params : OpenError
  access_denied temporarily_unavailable quota_exceeded system_quota_exceeded : OpenError
  file_already_exists file_not_found out_of_memory out_of_space fd_is_not_a_dir : OpenError
  file_is_too_big terminated fd_is_dir path_is_too_long bad_cwd unexpected_open : OpenError

-- `how->resolve & RESOLVE_CACHED`, bit 5 of the word
abbrev pub asks_cached : ℕ → Bool
asks_cached resolve = resolve / 32 % 2 == 1

abbrev pub open_cases : ℕ → List (List ℕ × OpenError)
open_cases resolve =
    (Errno.acces ∷ Errno.perm ∷ Errno.rofs ∷ [], access_denied)
    ∷ (Errno.badf ∷ [], bad_cwd)
    ∷ (Errno.dquot ∷ Errno.mfile ∷ [], quota_exceeded)
    ∷ (Errno.exist ∷ [], file_already_exists)
    ∷ (
      Errno.again ∷ Errno.busy ∷ Errno.txtbsy ∷ [],
      if asks_cached resolve then retryable_without_cache else temporarily_unavailable,
    )
    ∷ (Errno.loop ∷ [], path_contains_link)
    ∷ (Errno.xdev ∷ [], path_crosses_mount)
    ∷ (Errno.inval ∷ Errno.toobig ∷ Errno.fault ∷ [], invalid_params)
    ∷ (Errno.overflow ∷ Errno.fbig ∷ [], file_is_too_big)
    ∷ (Errno.intr ∷ [], terminated)
    ∷ (Errno.isdir ∷ [], fd_is_dir)
    ∷ (Errno.nametoolong ∷ [], path_is_too_long)
    ∷ (Errno.nfile ∷ [], system_quota_exceeded)
    ∷ (Errno.noent ∷ Errno.nxio ∷ [], file_not_found)
    ∷ (Errno.nomem ∷ [], out_of_memory)
    ∷ (Errno.nospc ∷ [], out_of_space)
    ∷ (Errno.notdir ∷ [], fd_is_not_a_dir)
    ∷ []

-- A failure is only reported.
unfoldable pub close : Bool → ℤ → ℤ → Exec (Unit {0})
close debug rc errno =
    if e_errno rc errno == Errno.success then returns tt else debug_e_errno debug tt

unfoldable pub open_file : Bool → ℕ → ℤ → ℤ → Exec (Expected ℤ OpenError)
open_file debug resolve rc errno =
    settle debug (open_cases resolve) unexpected_open (e_errno rc errno) (to_i32 rc)

pub data WriteError : Type 0 where
  unexpected_write : WriteError

unfoldable pub pwrite64 : Bool → ℤ → ℤ → Exec (Expected ℕ WriteError)
pwrite64 debug rc errno =
    settle debug [] unexpected_write (e_errno rc errno) (to_unsigned (2 ^ 64) rc)

pub data WritevError : Type 0 where
  unexpected_writev : WritevError

unfoldable pub pwritev : Bool → ℤ → ℤ → Exec (Expected ℕ WritevError)
pwritev debug rc errno =
    settle debug [] unexpected_writev (e_errno rc errno) (to_unsigned (2 ^ 64) rc)

pub data ReadError : Type 0 where
  temporarily_unavailable bad_fd fd_is_dir bad_buffer non_seekable_fd : ReadError
  invalid_params terminated unexpected_read : ReadError

abbrev pub read_cases : List (List ℕ × ReadError)
read_cases =
    (Errno.fault ∷ [], bad_buffer)
    ∷ (Errno.badf ∷ [], bad_fd)
    ∷ (Errno.again ∷ [], ReadError.temporarily_unavailable)
    ∷ (Errno.spipe ∷ [], non_seekable_fd)
    ∷ (Errno.intr ∷ [], ReadError.terminated)
    ∷ (Errno.isdir ∷ [], ReadError.fd_is_dir)
    ∷ (Errno.inval ∷ Errno.nxio ∷ Errno.opnotsupp ∷ Errno.overflow ∷ [], ReadError.invalid_params)
    ∷ []

unfoldable pub pread : Bool → ℤ → ℤ → Exec (Expected ℕ ReadError)
pread debug rc errno =
    settle debug read_cases unexpected_read (e_errno rc errno) (to_unsigned (2 ^ 64) rc)

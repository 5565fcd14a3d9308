-- ===== src/Io/Mmap.antt =====
-- include/shclog/io/mmap.hpp and src/shclog/io/mmap.cpp: a mapping and the deleter that gives it back.
use shclog.Prelude.{ℕ, ◌*◌, ◌%◌, ◌^◌, ◌==◌, if◌then◌else◌, Bool, List, [], ◌∷◌}
use shclog.Prelude.Int.{ℤ}
use shclog.Io.Exec.{Exec, returns, Expected}
use shclog.Io.Errno
use shclog.Io.Syscall.{e_errno, e_errno_ptr, debug_e_errno, settle}

pub data MmapError : Type 0 where
  access_denied permission_denied locked_memory_limit_exceeded bad_file_descriptor : MmapError
  memory_mapping_not_supported process_fd_quota_exceeded system_fd_quota_exceeded : MmapError
  out_of_memory mapping_already_exists unexpected_mmap : MmapError

-- A `unique_ptr<R, MmapDeleter>`: the pointer, and the `size` that its deleter unmaps.
pub record Mapping : Type 0 where
  pub address : ℤ
  pub size : ℕ

abbrev pub mmap_cases : List (List ℕ × MmapError)
mmap_cases =
    (Errno.acces ∷ Errno.txtbsy ∷ [], access_denied)
    ∷ (Errno.perm ∷ [], permission_denied)
    ∷ (Errno.again ∷ [], locked_memory_limit_exceeded)
    ∷ (Errno.badf ∷ [], bad_file_descriptor)
    ∷ (Errno.nodev ∷ [], memory_mapping_not_supported)
    ∷ (Errno.mfile ∷ [], process_fd_quota_exceeded)
    ∷ (Errno.nfile ∷ [], system_fd_quota_exceeded)
    ∷ (Errno.nomem ∷ [], out_of_memory)
    ∷ (Errno.exist ∷ [], mapping_already_exists)
    ∷ []

-- `len * sizeof(R)`
abbrev pub total_bytes : ℕ → ℕ → ℕ
total_bytes len size_of = len * size_of % 2 ^ 64

unfoldable pub mmap : Bool → ℕ → ℕ → ℤ → ℤ → Exec (Expected Mapping MmapError)
mmap debug size_of len rc errno =
    settle debug mmap_cases unexpected_mmap (e_errno_ptr rc errno)
      (record { address = rc; size = total_bytes len size_of })

-- A failure is only reported.
unfoldable pub munmap : Bool → ℤ → ℤ → Exec (Unit {0})
munmap debug rc errno =
    if e_errno rc errno == Errno.success then returns tt else debug_e_errno debug tt

-- ===== src/Io/Tmpfile.antt =====
-- `tmpfile` of src/shclog/io/file.cpp: an unnamed file in the working directory.
use shclog.Prelude.{ℕ, ◌≢◌, Bool, true, false, arith}
use Prim.Native.Nat.{bit_or}
use shclog.Prelude.Int.{ℤ, pos, negsuc}
use shclog.Io.Exec.{Exec, returns, ◌>>=◌, Expected, value, unexpected}
use shclog.Io.File.{OpenError, retryable_without_cache, open_file}

-- `::open_how`
pub record OpenHow : Type 0 where
  pub flags : ℕ
  pub mode : ℕ
  pub resolve : ℕ

-- The values of `OpenMode` are those of the flags in fcntl.h.
pub data OpenMode : Type 0 where
  read write read_write : OpenMode

-- The handle of the descriptor, or the error.
abbrev pub own : Expected ℤ OpenError → Expected ℤ OpenError
own (value fd) = value fd
own (unexpected e) = unexpected e

-- `o_rdonly` to `o_tmpfile` are the constants of fcntl.h.
module _ (o_rdonly o_wronly o_rdwr o_tmpfile : ℕ) where
  unfoldable pub mode_flags : OpenMode → ℕ
  mode_flags read = o_rdonly
  mode_flags write = o_wronly
  mode_flags read_write = o_rdwr

  unfoldable pub tmpfile_how : OpenMode → ℕ → ℕ → OpenHow
  unfolding mode_flags
  tmpfile_how open_mode flags mode = record {
    flags = bit_or (bit_or o_tmpfile (mode_flags open_mode)) flags;
    mode = mode;
    resolve = 0;
  }

-- `openat2 how` is what the system call returns for the working directory, and the thread's `errno`.
module _ (openat2 : OpenHow → ℤ × ℤ) (debug : Bool) where
  unfoldable pub open_with : OpenHow → Exec (Expected ℤ OpenError)
  unfolding open_file
  open_with how = let (rc, errno) = openat2 how in open_file debug how.resolve rc errno

  -- `tmpfile` behind the fields of `how`.
  unfoldable pub tmpfile : OpenHow → Exec (Expected ℤ OpenError)
  unfolding open_with
  tmpfile how = open_with how >>= λ r. returns (own r)

uncached :
    (debug : Bool) (rc errno : ℤ)
    → (open_file debug 0 rc errno >>= λ r. returns (own r))
      ≢ returns (unexpected retryable_without_cache)
unfolding open_file
uncached debug (pos n) errno = λ h. ground arith
uncached true (negsuc n) (negsuc errno) = λ h. ground arith
uncached false (negsuc n) (negsuc errno) = λ h. ground arith
uncached debug (negsuc n) (pos errno) = λ h. ground arith

-- The call asks for no cached lookup, so it never answers that a retry without one may succeed.
tmpfile-not_retryable :
    (rdonly wronly rdwr o_tmpfile : ℕ) (openat2 : OpenHow → ℤ × ℤ) (debug : Bool) (m : OpenMode)
    (flags mode : ℕ)
    → tmpfile openat2 debug (tmpfile_how rdonly wronly rdwr o_tmpfile m flags mode)
      ≢ returns (unexpected retryable_without_cache)
unfolding tmpfile tmpfile_how
tmpfile-not_retryable rdonly wronly rdwr o_tmpfile openat2 debug m flags mode =
    let how : OpenHow = tmpfile_how rdonly wronly rdwr o_tmpfile m flags mode in
    uncached debug ((openat2 how).0) ((openat2 how).1)

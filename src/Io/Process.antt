-- ===== src/Io/Process.antt =====
-- src/shclog/io/process.cpp and src/shclog/io/cpu.cpp: priority and affinity of a thread.
use shclog.Prelude.{ℕ, zero, suc, Bool, if◌then◌else◌, ◌==◌, Option, none, some, List, [], ◌∷◌}
use shclog.Prelude.Int.{ℤ, pos, negsuc}
use shclog.Io.Exec.{Exec, returns, undefined, switch, ◌>>=◌}
use shclog.Cast.{unsigned, int_cast_deferred}
use shclog.Io.Errno
use shclog.Io.Syscall.{e_errno, from_errno, debug_e_errno}

pub data SetPriorityResult : Type 0 where
  success invalid_param access_denied unexpected_priority : SetPriorityResult

abbrev pub priority_cases : List (List ℕ × SetPriorityResult)
priority_cases =
    (Errno.srch ∷ [], invalid_param) ∷ (Errno.acces ∷ Errno.perm ∷ [], access_denied) ∷ []

-- What `setpriority` returned, with the thread's `errno`.
unfoldable pub priority_result : Bool → ℤ × ℤ → Exec SetPriorityResult
priority_result debug (pos rc, errno) = returns success
priority_result debug (negsuc rc, errno) =
    let code = e_errno (negsuc rc) errno in
    if code == Errno.success then undefined else elim (switch priority_cases code) [
      | none ↦ debug_e_errno debug unexpected_priority
      | some r ↦ returns r
    ]

abbrev pub value_or : {A : Type 0} → Option A → A → A
value_or none a = a
value_or (some a) _ = a

-- `setpriority who` is the answer of the system for a process number; a `pid_t` becomes an `id_t`,
-- which holds no negative number.
unfoldable pub set_priority : (setpriority : ℤ → ℤ × ℤ) → Bool → Option ℤ → Exec SetPriorityResult
unfolding priority_result int_cast_deferred
set_priority setpriority debug target =
    int_cast_deferred debug (unsigned 32) (value_or target (pos 0)) >>= λ who.
    priority_result debug (setpriority who)

pub data SetCpuAffinityResult : Type 0 where
  success invalid_param unexpected_affinity : SetCpuAffinityResult

abbrev pub affinity_cases : List (List ℕ × SetCpuAffinityResult)
affinity_cases = (Errno.inval ∷ Errno.srch ∷ [], SetCpuAffinityResult.invalid_param) ∷ []

-- `_set_cpu_affinity`, for the code that `pthread_setaffinity_np` returns; the `assert` that it is
-- not negative aborts a debug build, and a release build casts it to a `u64` beyond every code.
unfoldable pub set_cpu_affinity : Bool → ℤ → Exec SetCpuAffinityResult
set_cpu_affinity debug (negsuc rc) = debug_e_errno debug unexpected_affinity
set_cpu_affinity debug (pos zero) = returns SetCpuAffinityResult.success
set_cpu_affinity debug (pos (suc rc)) =
    let code = from_errno (suc rc) in
    if code == Errno.success then undefined else elim (switch affinity_cases code) [
      | none ↦ debug_e_errno debug unexpected_affinity
      | some r ↦ returns r
    ]

-- `pthread_t_uwrap`: the thread given, or the caller's own.
unfoldable pub pthread_t_uwrap : ℕ → Option ℕ → ℕ
pthread_t_uwrap self none = self
pthread_t_uwrap self (some target) = target

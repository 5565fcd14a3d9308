-- ===== src/Io/Affinity.antt =====
-- `set_cpu_afinity` of include/shclog/io/cpu.hpp and src/shclog/io/cpu.cpp: the set of processors
-- that a thread is bound to.
mod Examples
use shclog.Prelude.{
  ℕ, zero, suc, ◌≡◌, ◌↔◌, Bool, true, false, ◌&&◌, ◌||◌, ltb, ◌==◌, Option, List, [], ◌∷◌, refl,
  arith, Bool-cases, inl, inr, ap, ◌∙◌,
}
use shclog.Prelude.Int.{ℤ, pos, negsuc}
use shclog.Io.Exec.{Exec, returns, member}
use shclog.Io.Process.{SetCpuAffinityResult, set_cpu_affinity, pthread_t_uwrap}

-- The `cpu_set_t` of sched.h and its macros.
pub record CpuSets : Type 1 where
  pub CpuSet : Type 0
  pub cpu_zero : CpuSet
  pub cpu_set : ℕ → CpuSet → CpuSet
  pub cpu_isset : ℕ → CpuSet → Bool

-- What is documented of the macros for a set of `setsize` processors; one beyond the set leaves it
-- as it is.
pub record IsDocumented (C : CpuSets) (setsize : ℕ) : Type 0 where
  pub isset-zero : (i : ℕ) → C.cpu_isset i C.cpu_zero ≡ false
  pub isset-set :
      (i cpu : ℕ) (set : C.CpuSet)
      → C.cpu_isset i (C.cpu_set cpu set) ≡ ((ltb cpu setsize && cpu == i) || C.cpu_isset i set)

module _ (C : CpuSets) where
  -- the loop over the range
  unfoldable pub set_each : List ℕ → C.CpuSet → C.CpuSet
  set_each [] set = set
  set_each (cpu ∷ range) set = set_each range (C.cpu_set cpu set)

  -- `affinity set thread` is what `pthread_setaffinity_np` returns, and `self` is `pthread_self()`.
  module _ (affinity : C.CpuSet → ℕ → ℤ) (self : ℕ) (debug : Bool) where
    unfoldable pub bind_to_range : List ℕ → Option ℕ → Exec SetCpuAffinityResult
    unfolding set_each set_cpu_affinity pthread_t_uwrap
    bind_to_range range target =
        set_cpu_affinity debug (affinity (set_each range C.cpu_zero) (pthread_t_uwrap self target))

    unfoldable pub bind_to_cpu : ℕ → Option ℕ → Exec SetCpuAffinityResult
    unfolding set_cpu_affinity pthread_t_uwrap
    bind_to_cpu cpu target =
        set_cpu_affinity debug (affinity (C.cpu_set cpu C.cpu_zero) (pthread_t_uwrap self target))

absorbed :
    (i cpu setsize : ℕ) (m s : Bool)
    → ((ltb i setsize && m) || ((ltb cpu setsize && cpu == i) || s))
      ≡ ((ltb i setsize && (cpu == i || m)) || s)
absorbed i cpu setsize m s = ground arith

set_each-isset :
    (C : CpuSets) (setsize i : ℕ) (range : List ℕ) (set : C.CpuSet)
    → IsDocumented C setsize
    → C.cpu_isset i (set_each C range set)
      ≡ ((ltb i setsize && member range i) || C.cpu_isset i set)
unfolding set_each
set_each-isset C setsize i [] set laws = ground arith
set_each-isset C setsize i (cpu ∷ range) set laws =
    set_each-isset C setsize i range (C.cpu_set cpu set) laws
    ∙ ap (λ (b : Bool). (ltb i setsize && member range i) || b) (laws.isset-set i cpu set)
    ∙ absorbed i cpu setsize (member range i) (C.cpu_isset i set)

affinity_success :
    (debug : Bool) (rc : ℤ)
    → (set_cpu_affinity debug rc ≡ returns SetCpuAffinityResult.success) ↔ (rc ≡ pos 0)
unfolding set_cpu_affinity
affinity_success debug (pos zero) = (λ h. refl, λ h. refl)
affinity_success true (pos (suc rc)) = (λ h. ground arith, λ h. ground arith)
affinity_success false (pos (suc rc)) = (λ h. ground arith, λ h. ground arith)
affinity_success true (negsuc rc) = (λ h. ground arith, λ h. ground arith)
affinity_success false (negsuc rc) = (λ h. ground arith, λ h. ground arith)

-- Setting the affinity to a range of processors succeeds exactly when the system takes, for the
-- thread given or else the caller's own, a set that holds the processors of the range below the set's
-- size and no others; the overload for one processor is that for a range of it alone.
pub bind_to_range-exact :
    (C : CpuSets) (setsize : ℕ) (affinity : C.CpuSet → ℕ → ℤ) (self : ℕ) (debug : Bool)
    (range : List ℕ) (target : Option ℕ) (cpu : ℕ)
    → IsDocumented C setsize
    → (C.cpu_isset cpu (set_each C range C.cpu_zero) ≡ (ltb cpu setsize && member range cpu))
      × ((bind_to_range C affinity self debug range target ≡ returns SetCpuAffinityResult.success)
          ↔ (affinity (set_each C range C.cpu_zero) (pthread_t_uwrap self target) ≡ pos 0))
      × (bind_to_cpu C affinity self debug cpu target
          ≡ bind_to_range C affinity self debug (cpu ∷ []) target)
unfolding bind_to_range bind_to_cpu
bind_to_range-exact C setsize affinity self debug range target cpu laws = (
  set_each-isset C setsize cpu range C.cpu_zero laws ∙ rw (laws.isset-zero cpu) (ground arith),
  affinity_success debug _,
  refl,
)

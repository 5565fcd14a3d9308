-- ===== src/Io/Affinity/Examples.antt =====
-- Processor sets as functions, and a system that knows four processors.
use shclog.Prelude.{
  ℕ, ◌≡◌, ◌↔◌, Bool, true, false, ◌&&◌, ◌||◌, ltb, ◌==◌, if◌then◌else◌, none, some, [], ◌∷◌, refl,
}
use shclog.Prelude.Int.{ℤ, pos}
use shclog.Io.Exec.{returns, member}
use shclog.Io.Process.{SetCpuAffinityResult, pthread_t_uwrap}
use shclog.Io.Affinity.{
  CpuSets, IsDocumented, set_each, bind_to_range, bind_to_cpu, bind_to_range-exact,
}

abbrev functions : CpuSets
functions = record {
  CpuSet = ℕ → Bool;
  cpu_zero = λ i. false;
  cpu_set = λ cpu set i. (ltb cpu 1024 && cpu == i) || set i;
  cpu_isset = λ i set. set i;
}

functions-IsDocumented : IsDocumented functions 1024
functions-IsDocumented = record { isset-zero = λ i. refl; isset-set = λ i cpu set. refl }

-- EINVAL where none of the four processors is in the set
abbrev four_cpus : (ℕ → Bool) → ℕ → ℤ
four_cpus set thread = if set 0 || set 1 || set 2 || set 3 then pos 0 else pos 22

binds :
    bind_to_range functions four_cpus 7 true (9 ∷ 2 ∷ 2 ∷ []) none
    ≡ returns SetCpuAffinityResult.success
unfolding bind_to_range
binds = refl

-- A processor beyond the set leaves it empty.
beyond_the_set :
    bind_to_cpu functions four_cpus 7 true 1024 (some 3)
    ≡ returns SetCpuAffinityResult.invalid_param
unfolding bind_to_cpu
beyond_the_set = refl

bind_to_range-exact_example :
    (functions.cpu_isset 2 (set_each functions (9 ∷ 2 ∷ []) functions.cpu_zero)
      ≡ (ltb 2 1024 && member (9 ∷ 2 ∷ []) 2))
    × ((bind_to_range functions four_cpus 7 true (9 ∷ 2 ∷ []) none
          ≡ returns SetCpuAffinityResult.success)
        ↔ (four_cpus (set_each functions (9 ∷ 2 ∷ []) functions.cpu_zero) (pthread_t_uwrap 7 none)
            ≡ pos 0))
    × (bind_to_cpu functions four_cpus 7 true 2 none
        ≡ bind_to_range functions four_cpus 7 true (2 ∷ []) none)
bind_to_range-exact_example =
    bind_to_range-exact functions 1024 four_cpus 7 true (9 ∷ 2 ∷ []) none 2 functions-IsDocumented

-- ===== src/Io/Iouring/Setup/Examples.antt =====
-- Runs of `create` and the destructor, and their theorems at concrete inputs.
use shclog.Prelude.{ℕ, suc, ap, ◌≡◌, ◌==◌, Bool, true, false, if◌then◌else◌, [], ◌∷◌, refl, arith}
use shclog.Prelude.Int.{ℤ, pos, negsuc}
use shclog.Io.Exec.{returns, unexpected}
use shclog.Io.Mmap.{Mapping}
use shclog.Io.Iouring.Calls.{io_uring_setup, io_uring_register}
use shclog.Io.Mmap.{mmap}
use shclog.Io.Iouring.Resources.{
  Resource, descriptor, region, gained, freed, History, System, Params, out_of_memory, RegisterOp,
  is_null,
}
use shclog.Io.Iouring.Setup.{create}
use shclog.Io.Iouring.Setup.Ends.{Ends}
use shclog.Io.Iouring.Setup.Released.{lifetime}
use shclog.Io.Iouring.Setup.Gives.{ValueIs}
use shclog.Io.Iouring.Setup.Layout.{Covers, create-Covers}

-- Two entries and four completions, in one mapping.
abbrev params : Params
params = record {
  sq_entries = 2;
  cq_entries = 4;
  features = 1;
  sq_off = record { head = 0; tail = 4; ring_mask = 16; flags = 36; dropped = 32; array = 128 };
  cq_off = record { head = 8; tail = 12; ring_mask = 20; overflow = 44; cqes = 64; flags = 40 };
}

-- `answered h op` is what a registration returns.
abbrev system : (answered : RegisterOp → ℤ × ℤ) (has_memory : Bool) → System
system answered has_memory = record {
  setup = λ h capacity flags. (pos 3, pos 0, params);
  map = λ h fd n off. (pos 4096, pos 0);
  free = λ h r. (pos 0, pos 0);
  register = λ h fd op n. answered op;
  allocate = λ h. has_memory;
  load = λ h a. 1;
  written_offset = λ h. 0;
}

abbrev all_well : RegisterOp → ℤ × ℤ
all_well op = (pos 0, pos 0)

abbrev ring_map : Mapping
ring_map = record { address = pos 4096; size = 136 }

abbrev entries_map : Mapping
entries_map = record { address = pos 4096; size = 8192 }

-- Without memory for the object both mappings and the descriptor are given back, the latest first.
create_cleans_up :
    create (system all_well false) true 2 0 []
    ≡ returns (
      unexpected out_of_memory,
      freed (descriptor (pos 3))
          ∷ freed (region ring_map)
          ∷ freed (region entries_map)
          ∷ gained (region entries_map)
          ∷ gained (region ring_map)
          ∷ gained (descriptor (pos 3))
          ∷ [],
    )
unfolding create io_uring_setup mmap
create_cleans_up = refl

apart : {n : ℕ} → pos (suc n) ≡ pos 0 → ⊥
apart e = let z = ap is_zero e in cc
  where
    is_zero : ℤ → Bool
    is_zero (pos n) = n == 0
    is_zero (negsuc n) = false

-- Every resource but a `-1` and a null pointer.
abbrev is_real : Resource → Bool
is_real r = if is_null r then false else true

lifetime_runs : (h : History) × (lifetime (system all_well true) true 2 0 [] ≡ returns h)
unfolding lifetime io_uring_setup mmap io_uring_register
lifetime_runs = (_, refl)

create-Covers_example :
    Ends true
      (create (system all_well true) true 2 0 [])
      (ValueIs (system all_well true) true (Covers params))
create-Covers_example =
    create-Covers (system all_well true) true 2 0 [] (λ g fd n off e. apart e)
      (omega arith, omega arith, omega arith, omega arith)

-- ===== src/Io/Iouring/Resources.antt =====
-- What `create` of include/shclog/io/iouring.hpp gains, its errors, the object, and what the system answers.
use shclog.Prelude.{
  ℕ, ◌+◌, ◌*◌, ◌/◌, ◌%◌, ◌^◌, max, Bool, true, false, ◌==◌, if◌then◌else◌, Option, List,
}
use shclog.Prelude.Int.{ℤ, pos, negsuc, to_unsigned}
use shclog.Io.Exec.{Expected, value, unexpected}
use shclog.Io.Mmap.{Mapping, MmapError}
use shclog.Io.Iouring.Calls.{SetupError, process_fd_quota_exceeded, system_fd_quota_exceeded}

-- What the kernel fills in of `io_uring_params`.
pub record SqOffsets : Type 0 where
  pub head : ℕ
  pub tail : ℕ
  pub ring_mask : ℕ
  pub flags : ℕ
  pub dropped : ℕ
  pub array : ℕ

pub record CqOffsets : Type 0 where
  pub head : ℕ
  pub tail : ℕ
  pub ring_mask : ℕ
  pub overflow : ℕ
  pub cqes : ℕ
  pub flags : ℕ

pub record Params : Type 0 where
  pub sq_entries : ℕ
  pub cq_entries : ℕ
  pub features : ℕ
  pub sq_off : SqOffsets
  pub cq_off : CqOffsets

-- What has an owner: a `unique_fd`, a `unique_ptr` with `MmapDeleter`, and the object itself.
pub data Resource : Type 0 where
  descriptor : ℤ → Resource
  region : Mapping → Resource
  object : Resource

pub data RegisterOp : Type 0 where
  register_buffers_op unregister_buffers_op register_files_op unregister_files_op : RegisterOp
  register_ring_fds_op unregister_ring_fds_op : RegisterOp

-- What was done, the latest first.
pub data Event : Type 0 where
  gained freed : Resource → Event
  called : RegisterOp → Event

abbrev pub History : Type 0
History = List Event

pub data Offset : Type 0 where
  off_sq_ring off_cq_ring off_sqes : Offset

-- The answers: what a call returns with the `errno` that it sets, whether `new` finds memory, a word
-- in a mapping, and what the kernel writes to `reg.offset`.
pub record System : Type 0 where
  pub setup : History → (capacity flags : ℕ) → ℤ × ℤ × Params
  pub map : History → ℤ → ℕ → Offset → ℤ × ℤ
  pub free : History → Resource → ℤ × ℤ
  pub register : History → ℤ → RegisterOp → ℕ → ℤ × ℤ
  pub allocate : History → Bool
  pub load : History → ℕ → ℕ
  pub written_offset : History → ℕ

pub data CreateError : Type 0 where
  invalid_capacity unable_to_setup_ring no_available_fd out_of_memory : CreateError

pub data RingQueueAllocError : Type 0 where
  no_memory unexpected_alloc : RingQueueAllocError

pub record Evented : Type 0 where
  pub ring_fd : ℤ
  pub sq_ptr : Mapping
  pub cq_ptr : Mapping
  pub sq_head : ℕ
  pub sq_tail : ℕ
  pub sq_flags : ℕ
  pub sq_array : ℕ
  pub sq_dropped : ℕ
  pub sq_mask : ℕ
  pub sqes : Mapping
  pub cq_head : ℕ
  pub cq_tail : ℕ
  pub cq_flags : ℕ
  pub cq_overflow : ℕ
  pub cq_mask : ℕ
  pub cqes : ℕ
  pub is_sq_poll : Bool
  pub registered_ring_fd : Option ℤ

abbrev pub setup_failure : SetupError → CreateError
setup_failure e = elim e [
  | process_fd_quota_exceeded ↦ no_available_fd
  | system_fd_quota_exceeded ↦ no_available_fd
  | SetupError.out_of_memory ↦ out_of_memory
  | _ ↦ unable_to_setup_ring
]

abbrev pub alloc_failure : RingQueueAllocError → CreateError
alloc_failure no_memory = out_of_memory
alloc_failure unexpected_alloc = unable_to_setup_ring

abbrev pub mmap_failure : MmapError → RingQueueAllocError
mmap_failure e = elim e [ MmapError.out_of_memory ↦ no_memory | _ ↦ unexpected_alloc ]

-- `params.features & IORING_FEAT_SINGLE_MMAP` and `flags & IORING_SETUP_SQPOLL`
abbrev pub single_mmap : Params → Bool
single_mmap params = params.features % 2 == 1

abbrev pub asks_sq_poll : ℕ → Bool
asks_sq_poll flags = flags / 2 % 2 == 1

-- `ptr.get() + offset`
abbrev pub at : Mapping → ℕ → ℕ
at m offset = (to_unsigned (2 ^ 64) m.address + offset) % 2 ^ 64

abbrev pub null_map : Mapping
null_map = record { address = pos 0; size = 0 }

abbrev pub is_null : Resource → Bool
is_null (descriptor f) = elim f [ pos n ↦ false | negsuc n ↦ n == 0 ]
is_null (region m) = elim (m.address) [ pos n ↦ n == 0 | negsuc n ↦ false ]
is_null object = false

abbrev pub has_value : {T E : Type 0} → Expected T E → Bool
has_value (value v) = true
has_value (unexpected e) = false

-- In bytes; the entries have 4, 16 and 64.
abbrev pub sq_bytes : Params → ℕ
sq_bytes params = params.sq_off.array + params.sq_entries * 4

abbrev pub cq_bytes : Params → ℕ
cq_bytes params = params.cq_off.cqes + params.cq_entries * 16

abbrev pub sq_size : Params → ℕ
sq_size params =
    if single_mmap params then max (sq_bytes params) (cq_bytes params) else sq_bytes params

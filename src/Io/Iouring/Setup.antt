-- ===== src/Io/Iouring/Setup.antt =====
-- The life of an `EventedIo` of include/shclog/io/iouring.hpp: `create` with `register_ring_fd`,
-- `register_files`, `register_buffers` and the destructor. What the system answers is a parameter
-- that depends on what was done so far; a scoped owner gives its resource back on each early return.
pub mod Ends
pub mod Accounts
pub mod Gives
mod Examples
pub mod Layout
pub mod Owned
pub mod Released
use shclog.Prelude.{
  ℕ, ◌+◌, ◌-◌, ◌*◌, ◌/◌, ◌%◌, ◌^◌, max, bit_and, Bool, true, false, not, ◌||◌, ◌==◌, ltb,
  if◌then◌else◌, Option, none, some, List, [], ◌∷◌,
}
use shclog.Prelude.Int.{ℤ, pos, negsuc, is_nonneg, to_unsigned, to_i32}
use shclog.Io.Exec.{Exec, returns, aborts, Expected, value, unexpected, ◌>>=◌}
use shclog.Io.Errno
use shclog.Io.Syscall.{e_errno, debug_e_errno}
use shclog.Io.File.{close}
use shclog.Io.Mmap.{munmap, Mapping, MmapError, mmap, total_bytes}
use shclog.Io.Iouring.Calls.{
  SetupError, RegisterError, process_fd_quota_exceeded, system_fd_quota_exceeded, io_uring_setup,
  io_uring_register,
}
use shclog.Io.Iouring.Ring.Requests.{int_cast}
use shclog.Io.Iouring.Resources.{
  SqOffsets, CqOffsets, Params, Resource, RegisterOp, Event, History, Offset, System, CreateError,
  RingQueueAllocError, Evented, setup_failure, alloc_failure, mmap_failure, single_mmap,
  asks_sq_poll, at, null_map, is_null, has_value, sq_bytes, cq_bytes, sq_size, descriptor, region,
  object, register_buffers_op, unregister_buffers_op, register_files_op, unregister_files_op,
  register_ring_fds_op, unregister_ring_fds_op, gained, freed, called, off_sq_ring, off_cq_ring,
  off_sqes, invalid_capacity, unable_to_setup_ring, no_available_fd, out_of_memory, no_memory,
  unexpected_alloc,
}

abbrev pub Act : Type 0 → Type 0
Act A = History → Exec (Expected A CreateError × History)

-- The next statement, behind the early return of an error.
unfoldable pub attempt : {A B : Type 0} → Act A → (A → Act B) → Act B
attempt m f h =
    m h >>= λ x. elim (x.0) [ value a ↦ f a (x.1) | unexpected e ↦ returns (unexpected e, x.1) ]

-- What the constructor takes; the completion ring stands at `cq_raw`.
abbrev pub assembled :
    (flags : ℕ) (fd : ℤ) (params : Params) (sq_ptr cq_ptr cq_raw : Mapping) (sq_mask cq_mask : ℕ)
    (sqes : Mapping)
    → Evented
assembled flags fd params sq_ptr cq_ptr cq_raw sq_mask cq_mask sqes = record {
  ring_fd = fd;
  sq_ptr = sq_ptr;
  cq_ptr = cq_ptr;
  sq_head = at sq_ptr params.sq_off.head;
  sq_tail = at sq_ptr params.sq_off.tail;
  sq_flags = at sq_ptr params.sq_off.flags;
  sq_array = at sq_ptr params.sq_off.array;
  sq_dropped = at sq_ptr params.sq_off.dropped;
  sq_mask = sq_mask;
  sqes = sqes;
  cq_head = at cq_raw params.cq_off.head;
  cq_tail = at cq_raw params.cq_off.tail;
  cq_flags = at cq_raw params.cq_off.flags;
  cq_overflow = at cq_raw params.cq_off.overflow;
  cq_mask = cq_mask;
  cqes = at cq_raw params.cq_off.cqes;
  is_sq_poll = asks_sq_poll flags;
  registered_ring_fd = none;
}

module _ (os : System) (debug : Bool) where
  -- `close`, `munmap` or `operator delete`
  unfoldable pub give_back : Resource → History → Exec History
  unfolding close munmap
  give_back object h = returns (freed object ∷ h)
  give_back (descriptor f) h =
      let answer = os.free h (descriptor f) in
      close debug (answer.0) (answer.1) >>= λ _. returns (freed (descriptor f) ∷ h)
  give_back (region m) h =
      let answer = os.free h (region m) in
      munmap debug (answer.0) (answer.1) >>= λ _. returns (freed (region m) ∷ h)

  -- The destructor of an owner, which skips a `-1` and a null pointer.
  unfoldable pub drop : Resource → History → Exec History
  unfolding give_back
  drop r h = if is_null r then returns h else give_back r h

  unfoldable pub scoped : {A : Type 0} → Resource → Act A → Act A
  unfolding drop
  scoped r body h = body h >>= λ x. elim (x.0) [
    | value a ↦ returns (value a, x.1)
    | unexpected e ↦ drop r (x.1) >>= λ h'. returns (unexpected e, h')
  ]

  abbrev pub setup_result :
      Params → History → Expected ℤ SetupError → Exec (Expected (ℤ × Params) CreateError × History)
  setup_result params h (value f) = returns (value (f, params), gained (descriptor f) ∷ h)
  setup_result params h (unexpected e) = returns (unexpected (setup_failure e), h)

  unfoldable pub setup_ring : ℕ → ℕ → Act (ℤ × Params)
  setup_ring capacity flags h =
      let (rc, errno, params) = os.setup h capacity flags in
      io_uring_setup debug rc errno >>= setup_result params h

  abbrev pub not_mapped :
      History → RingQueueAllocError → Exec (Expected Mapping CreateError × History)
  not_mapped h no_memory = returns (unexpected (alloc_failure no_memory), h)
  not_mapped h unexpected_alloc =
      debug_e_errno debug (unexpected (alloc_failure unexpected_alloc), h)

  abbrev pub mmap_result :
      History → Expected Mapping MmapError → Exec (Expected Mapping CreateError × History)
  mmap_result h (value m) = returns (value m, gained (region m) ∷ h)
  mmap_result h (unexpected e) = not_mapped h (mmap_failure e)

  -- With the `switch` of its caller, which maps its two errors.
  unfoldable pub io_uring_mmap : ℕ → ℤ → ℕ → Offset → Act Mapping
  io_uring_mmap size_of fd size offset h =
      let answer = os.map h fd (total_bytes size size_of) offset in
      mmap debug size_of size (answer.0) (answer.1) >>= mmap_result h

  -- With the `int_cast` of the offset to an `int`.
  abbrev pub keep_slot : Evented → History → Expected ℕ RegisterError → Exec (Evented × History)
  keep_slot e h (unexpected x) = returns (e, h)
  keep_slot e h (value n) =
      let offset = os.written_offset h in
      if ltb offset (2 ^ 31) || not debug
      then returns (record e { registered_ring_fd = some (to_i32 (pos offset)) }, h)
      else aborts

  -- The first test is that of the `int_cast` of the descriptor to a `u64`.
  unfoldable pub register_ring_fd : Evented → History → Exec (Evented × History)
  register_ring_fd e h =
      let answer = os.register h e.ring_fd register_ring_fds_op 1 in
      if is_nonneg e.ring_fd || not debug
      then (io_uring_register debug (answer.0) (answer.1)
          >>= keep_slot e (called register_ring_fds_op ∷ h))
      else aborts

  unfoldable pub build : Evented → Act Evented
  unfolding register_ring_fd
  build e h =
      if os.allocate h
      then (register_ring_fd e (gained object ∷ h) >>= λ x. returns (value (x.0), x.1))
      else returns (unexpected out_of_memory, h)

  -- The second mapping, or a null pointer where one mapping holds both rings.
  unfoldable pub map_cq : ℤ → Params → Act Mapping
  unfolding io_uring_mmap
  map_cq fd params h =
      if single_mmap params
      then returns (value null_map, h)
      else io_uring_mmap 1 fd (cq_bytes params) off_cq_ring h

  unfoldable pub map_sqes : ℕ → ℤ → Params → Mapping → Mapping → Act Evented
  unfolding attempt scoped io_uring_mmap build
  map_sqes flags fd params sq_ptr cq_ptr h =
      let sq_mask = os.load h (at sq_ptr params.sq_off.ring_mask) in
      attempt (io_uring_mmap 64 fd (params.sq_entries * 64) off_sqes)
        (λ sqes. scoped (region sqes) (λ h'.
          let cq_raw = if is_null (region cq_ptr) then sq_ptr else cq_ptr in
          build
            (assembled flags fd params sq_ptr cq_ptr cq_raw sq_mask
              (os.load h' (at cq_raw params.cq_off.ring_mask)) sqes)
            h'))
        h

  unfoldable pub map_rings : ℕ → ℤ → Params → Act Evented
  unfolding map_sqes map_cq
  map_rings flags fd params = attempt (io_uring_mmap 1 fd (sq_size params) off_sq_ring) (λ sq_ptr.
      scoped (region sq_ptr) (
        attempt (map_cq fd params)
          (λ cq_ptr. scoped (region cq_ptr) (map_sqes flags fd params sq_ptr cq_ptr))))

  unfoldable pub create : ℕ → ℕ → Act Evented
  unfolding setup_ring map_rings
  create capacity flags h =
      if capacity == 0 || not (bit_and capacity (capacity - 1) == 0)
      then returns (unexpected invalid_capacity, h)
      else attempt (setup_ring capacity flags)
          (λ r. scoped (descriptor (r.0)) (map_rings flags (r.0) (r.1))) h

  -- `register_files` and `register_buffers`
  unfoldable pub register_all : RegisterOp → Evented → ℕ → History → Exec (Bool × History)
  unfolding int_cast
  register_all op e size h = int_cast debug (2 ^ 32) size >>= λ n.
      let answer = os.register h e.ring_fd op n in
      io_uring_register debug (answer.0) (answer.1) >>= λ r. returns (has_value r, called op ∷ h)

  -- A call whose success the destructor asserts.
  unfoldable pub unregister : RegisterOp → Evented → ℕ → History → Exec History
  unregister op e n h =
      let answer = os.register h e.ring_fd op n in
      io_uring_register debug (answer.0) (answer.1) >>= λ r.
      if has_value r || not debug then returns (called op ∷ h) else aborts

  unfoldable pub unregister_ring_fd : Evented → History → Exec History
  unfolding unregister
  unregister_ring_fd e h = elim (e.registered_ring_fd) [
    | none ↦ returns h
    | some slot ↦ unregister unregister_ring_fds_op e 1 h
  ]

  -- `delete`: the destructor's body, the members in the reverse order, the memory.
  unfoldable pub destroy : Evented → History → Exec History
  unfolding unregister_ring_fd drop
  destroy e h =
      unregister unregister_buffers_op e 0 h
      >>= unregister unregister_files_op e 0
      >>= unregister_ring_fd e
      >>= drop (region e.sqes)
      >>= drop (region e.cq_ptr)
      >>= drop (region e.sq_ptr)
      >>= drop (descriptor e.ring_fd)
      >>= give_back object

-- ===== src/Io/Iouring/Setup/Owned.antt =====
-- Who owns what `create` gains: the object that it returns, or nobody any more.
use shclog.Prelude.{
  ℕ, ◌+◌, ◌*◌, ◌≡◌, Bool, ◌==◌, ◌^◌, ltb, ◌∷◌, refl, arith, Bool-cases, inl, inr, bit_and, ◌-◌,
  ◌||◌, not,
}
use shclog.Prelude.Int.{ℤ, is_nonneg}
use shclog.Io.Exec.{Expected, value, unexpected, ◌>>=◌}
use shclog.Io.Mmap.{Mapping, total_bytes}
use shclog.Io.Iouring.Calls.{io_uring_register}
use shclog.Io.Iouring.Resources.{
  Resource, descriptor, region, object, gained, called, History, System, Params, Evented, Offset,
  CreateError, null_map, single_mmap, mmap_failure, no_memory, unexpected_alloc,
  RingQueueAllocError, register_ring_fds_op, off_sqes, off_sq_ring, sq_size, cq_bytes, off_cq_ring,
}
use shclog.Io.Iouring.Setup.{
  setup_result, mmap_result, not_mapped, keep_slot, setup_ring, io_uring_mmap, register_ring_fd,
  build, map_cq, map_sqes, map_rings, create,
}
use shclog.Io.Iouring.Setup.Ends.{
  Ends, Ends-bind, Ends-implies, debug_e_errno-Ends, assert-Ends, io_uring_setup-Ends, mmap-Ends,
  io_uring_register-Ends,
}
use shclog.Io.Iouring.Setup.Accounts.{
  weigh, ChoosesReal, gains, frees, owned, After, Runs, weigh_null, attempt-Runs, scoped-Runs,
}

module _ (os : System) (debug : Bool) (p : Resource → Bool) (real : ChoosesReal p) where
  setup_ring-Runs :
      (capacity flags : ℕ)
      → Runs os debug p real
          (λ (r : ℤ × Params). weigh p (descriptor (r.0)))
          0
          0
          (setup_ring os debug capacity flags)
  unfolding setup_ring
  setup_ring-Runs capacity flags h =
      let answer = os.setup h capacity flags in
      io_uring_setup-Ends debug (answer.0) (answer.1) (setup_result os debug (answer.2) h)
        (After os debug p real (λ (r : ℤ × Params). weigh p (descriptor (r.0))) 0 0 h)
        (λ f. omega arith) (λ e. omega arith)

  io_uring_mmap-Runs :
      (size_of : ℕ) (fd : ℤ) (size : ℕ) (offset : Offset)
      → Runs os debug p real
          (λ (m : Mapping). weigh p (region m))
          0
          0
          (io_uring_mmap os debug size_of fd size offset)
  unfolding io_uring_mmap
  io_uring_mmap-Runs size_of fd size off h =
      let answer = os.map h fd (total_bytes size size_of) off in
      mmap-Ends debug (answer.0) (answer.1) size_of size (mmap_result os debug h)
        (After os debug p real (λ (m : Mapping). weigh p (region m)) 0 0 h) (λ m a s. omega arith)
        (λ e. failed (mmap_failure e))
    where
      failed :
          (x : RingQueueAllocError)
          → Ends debug
              (not_mapped os debug h x)
              (After os debug p real (λ (m : Mapping). weigh p (region m)) 0 0 h)
      failed no_memory = omega arith
      failed unexpected_alloc = debug_e_errno-Ends debug _ _ (omega arith)

  map_cq-Runs :
      (fd : ℤ) (params : Params)
      → Runs os debug p real (λ (m : Mapping). weigh p (region m)) 0 0 (map_cq os debug fd params)
  unfolding map_cq
  map_cq-Runs fd params h = elim (Bool-cases (single_mmap params)) [
    | inl e ↦ rw (e, map_cq) (omega (arith, weigh_null os debug p real (region null_map) refl))
    | inr e ↦ rw (e, map_cq) (io_uring_mmap-Runs 1 fd (cq_bytes params) off_cq_ring h)
  ]

  -- The handles of the object stay what they are.
  abbrev Kept : Evented → History → Evented × History → Type 0
  Kept e h x =
      (owned p (x.0) ≡ owned p e) × (gains p (x.1) ≡ gains p h) × (frees p (x.1) ≡ frees p h)

  register_ring_fd-Kept :
      (e : Evented) (h : History) → Ends debug (register_ring_fd os debug e h) (Kept e h)
  unfolding register_ring_fd
  register_ring_fd-Kept e h =
      let answer = os.register h e.ring_fd register_ring_fds_op 1 in
      let h' = called register_ring_fds_op ∷ h in
      assert-Ends debug (is_nonneg e.ring_fd)
        (io_uring_register debug (answer.0) (answer.1) >>= keep_slot os debug e h') (Kept e h)
        (io_uring_register-Ends debug (answer.0) (answer.1) (keep_slot os debug e h') (Kept e h)
          (λ n.
            assert-Ends debug (ltb (os.written_offset h') (2 ^ 31)) _ (Kept e h) (refl, refl, refl))
          (λ x. (refl, refl, refl)))

  build-Runs :
      (e : Evented)
      → Runs os debug p real
          (owned p)
          (0
            + weigh p (descriptor e.ring_fd)
            + weigh p (region e.sq_ptr)
            + weigh p (region e.cq_ptr)
            + weigh p (region e.sqes))
          0
          (build os debug e)
  unfolding build
  build-Runs e h = elim (Bool-cases (os.allocate h)) [
    | inl n ↦
        rw (n, build)
          (Ends-bind debug (register_ring_fd os debug e (gained object ∷ h)) _
            (Kept e (gained object ∷ h)) _ (register_ring_fd-Kept e (gained object ∷ h))
            (λ x k. omega (arith, k.0, k.1, k.2)))
    | inr n ↦ rw (n, build) (omega arith)
  ]

  map_sqes-Runs :
      (flags : ℕ) (fd : ℤ) (params : Params) (sq_ptr cq_ptr : Mapping)
      → Runs os debug p real
          (owned p)
          (0 + weigh p (descriptor fd) + weigh p (region sq_ptr) + weigh p (region cq_ptr))
          0
          (map_sqes os debug flags fd params sq_ptr cq_ptr)
  unfolding map_sqes
  map_sqes-Runs flags fd params sq_ptr cq_ptr h =
      attempt-Runs os debug p real (λ m. weigh p (region m)) (owned p) _ _ _
        (io_uring_mmap-Runs 64 fd (params.sq_entries * 64) off_sqes)
        (λ sqes. scoped-Runs os debug p real (owned p) _ (region sqes) _ (λ g. build-Runs _ g)) h

  map_rings-Runs :
      (flags : ℕ) (fd : ℤ) (params : Params)
      → Runs os debug p real
          (owned p)
          (0 + weigh p (descriptor fd))
          0
          (map_rings os debug flags fd params)
  unfolding map_rings
  map_rings-Runs flags fd params =
      attempt-Runs os debug p real (λ m. weigh p (region m)) (owned p) _ _ _
        (io_uring_mmap-Runs 1 fd (sq_size params) off_sq_ring)
        (λ sq_ptr. scoped-Runs os debug p real (owned p) _ (region sq_ptr) _ (
          attempt-Runs os debug p real (λ m. weigh p (region m)) (owned p) _ _ _
            (map_cq-Runs fd params)
            (λ cq_ptr.
              scoped-Runs os debug p real (owned p) _ (region cq_ptr) _
                (map_sqes-Runs flags fd params sq_ptr cq_ptr))))

  create-Runs :
      (capacity flags : ℕ) → Runs os debug p real (owned p) 0 0 (create os debug capacity flags)
  unfolding create
  create-Runs capacity flags h =
      elim (Bool-cases (capacity == 0 || not (bit_and capacity (capacity - 1) == 0))) [
        | inl e ↦ rw (e, create) (omega arith)
        | inr e ↦
            rw (e, create)
              (attempt-Runs os debug p real (λ (r : ℤ × Params). weigh p (descriptor (r.0)))
                (owned p) 0 _ _ (setup_ring-Runs capacity flags)
                (λ r.
                  scoped-Runs os debug p real (owned p) 0 (descriptor (r.0)) _
                    (map_rings-Runs flags (r.0) (r.1)))
                h)
      ]

  -- What is not given back is what the answer owns.
  abbrev pub Owns : History → Expected Evented CreateError × History → Type 0
  Owns h (value e, h') = gains p h' + frees p h ≡ gains p h + frees p h' + owned p e
  Owns h (unexpected e, h') = gains p h' + frees p h ≡ gains p h + frees p h'

  -- Whatever the system answers, `create` ends with an object or an error, or with the abort of a debug
  -- build. On an error every descriptor, mapping and object that it gained was given back once; an
  -- object owns exactly those that were not.
  pub create-Owns :
      (capacity flags : ℕ) (h : History) → Ends debug (create os debug capacity flags h) (Owns h)
  create-Owns capacity flags h =
      Ends-implies debug (create os debug capacity flags h) (After os debug p real (owned p) 0 0 h)
        (Owns h) (create-Runs capacity flags h) (λ x k. balanced x k)
    where
      balanced :
          (x : Expected Evented CreateError × History)
          → After os debug p real (owned p) 0 0 h x
          → Owns h x
      balanced (value e, g) k = omega (arith, k)
      balanced (unexpected e, g) k = omega (arith, k)

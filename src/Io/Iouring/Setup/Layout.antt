-- ===== src/Io/Iouring/Setup/Layout.antt =====
-- The mappings of an `EventedIo` hold the arrays that it points into.
use shclog.Prelude.{
  ℕ, ◌+◌, ◌-◌, ◌*◌, ◌^◌, ◌≤◌, ◌<◌, ◌≡◌, ◌≢◌, ◌⊎◌, max, bit_and, Bool, true, false, not, ◌||◌, ◌==◌,
  if◌then◌else◌, Option, ◌∷◌, refl, sym, subst, arith, Bool-cases, inl, inr,
}
use shclog.Prelude.Int.{ℤ, pos}
use shclog.Io.Exec.{returns, Expected, value, unexpected}
use shclog.Io.Mmap.{Mapping, total_bytes}
use shclog.Io.Iouring.Resources.{
  descriptor, region, object, gained, History, System, Params, Evented, Offset, off_sq_ring,
  off_cq_ring, off_sqes, CreateError, is_null, single_mmap, sq_bytes, cq_bytes, sq_size, at,
}
use shclog.Io.Iouring.Setup.{
  attempt, scoped, setup_result, setup_ring, io_uring_mmap, register_ring_fd, build, map_cq,
  assembled, map_sqes, map_rings, create,
}
use shclog.Io.Iouring.Setup.Ends.{Ends, Ends-bind, Ends-implies, io_uring_setup-Ends}
use shclog.Io.Iouring.Setup.Gives.{
  ValueIs, ValueIs-implies, Gives, attempt-Gives, scoped-Gives, io_uring_mmap-Gives,
  register_ring_fd-Gives,
}

abbrev pub cq_region : Evented → Mapping
cq_region e = if is_null (region e.cq_ptr) then e.sq_ptr else e.cq_ptr

-- The fields have 32 bits.
abbrev pub InRange : Params → Type 0
InRange params =
    (params.sq_entries < 2 ^ 32)
    × (params.cq_entries < 2 ^ 32)
    × (params.sq_off.array < 2 ^ 32)
    × (params.cq_off.cqes < 2 ^ 32)

abbrev pub Covers : Params → Evented → Type 0
Covers params e =
    (e.sq_array ≡ at e.sq_ptr params.sq_off.array)
    × (params.sq_off.array + params.sq_entries * 4 ≤ e.sq_ptr.size)
    × (e.cqes ≡ at (cq_region e) params.cq_off.cqes)
    × (params.cq_off.cqes + params.cq_entries * 16 ≤ (cq_region e).size)
    × (e.sqes.size ≡ 64 * (params.sq_entries * 64))

module _ (os : System) (debug : Bool) where
  build-Gives :
      (params : Params) (e : Evented)
      → Covers params e
      → Gives os debug (Covers params) (build os debug e)
  unfolding build
  build-Gives params e c h = elim (Bool-cases (os.allocate h)) [
    | inl n ↦
        rw (n, build)
          (Ends-bind debug (register_ring_fd os debug e (gained object ∷ h)) _
            (λ x. (o : Option ℤ) × (x.0 ≡ record e { registered_ring_fd = o }))
            (ValueIs os debug (Covers params))
            (register_ring_fd-Gives os debug e (gained object ∷ h))
            (λ x k. subst (Covers params) (sym (k.1)) c))
    | inr n ↦ rw (n, build) tt
  ]

  -- The completion ring has a mapping of its own, or shares the first one.
  abbrev CqFits : Params → Mapping → Type 0
  CqFits params m =
      ((is_null (region m) ≡ true) × (cq_bytes params ≤ sq_size params))
      ⊎ ((is_null (region m) ≡ false) × (cq_bytes params ≤ m.size))

  module _ (nonnull : (h : History) (fd : ℤ) (n : ℕ) (off : Offset) → (os.map h fd n off).0 ≢ pos 0)
      (fd : ℤ) (params : Params) (range : InRange params) where
    map_cq-Gives : Gives os debug (CqFits params) (map_cq os debug fd params)
    unfolding map_cq
    map_cq-Gives h = elim (Bool-cases (single_mmap params)) [
      | inl n ↦ rw (n, map_cq) (inl (refl, rw n (omega arith)))
      | inr n ↦
          rw (n, map_cq)
            (Ends-implies debug (io_uring_mmap os debug 1 fd (cq_bytes params) off_cq_ring h) _ _
              (io_uring_mmap-Gives os debug 1 fd (cq_bytes params) off_cq_ring
                (λ g. nonnull g fd _ _) h)
              (λ x.
                ValueIs-implies os debug _ (CqFits params) x
                  (λ m k. inr (k.1, omega (arith, range.0, range.1, range.2, range.3, k.0)))))
    ]

    -- Its own mapping is as large as the sum in the code, which does not overflow.
    abbrev Whole : ℕ → Mapping → Type 0
    Whole bytes m = (m.size ≡ total_bytes bytes 1) × (is_null (region m) ≡ false)

    -- The sizes are far from overflow.
    sq_size-exact : total_bytes (sq_size params) 1 ≡ sq_size params
    sq_size-exact = elim (Bool-cases (single_mmap params)) [
      | inl n ↦
          let size : sq_size params ≡ max (sq_bytes params) (cq_bytes params) = rw n refl in
          omega (arith, range.0, range.1, range.2, range.3, size)
      | inr n ↦
          let size : sq_size params ≡ sq_bytes params = rw n refl in
          omega (arith, range.0, range.2, size)
    ]

    array_fits :
        (sq_ptr : Mapping)
        → Whole (sq_size params) sq_ptr
        → params.sq_off.array + params.sq_entries * 4 ≤ sq_ptr.size
    array_fits sq_ptr w = elim (Bool-cases (single_mmap params)) [
      | inl n ↦
          let size : sq_size params ≡ max (sq_bytes params) (cq_bytes params) = rw n refl in
          omega (arith, sq_size-exact, w.0, size)
      | inr n ↦
          let size : sq_size params ≡ sq_bytes params = rw n refl in
          omega (arith, sq_size-exact, w.0, size)
    ]

    region_fits :
        (sq_ptr cq_ptr : Mapping)
        → Whole (sq_size params) sq_ptr
        → CqFits params cq_ptr
        → cq_bytes params ≤ (if is_null (region cq_ptr) then sq_ptr else cq_ptr).size
    region_fits sq_ptr cq_ptr w (inl (n, le)) =
        let enough : cq_bytes params ≤ sq_ptr.size = omega (arith, sq_size-exact, w.0, le) in
        rw n enough
    region_fits sq_ptr cq_ptr w (inr (n, le)) = rw n le

    map_sqes-Gives :
        (flags : ℕ) (sq_ptr cq_ptr : Mapping)
        → Whole (sq_size params) sq_ptr
        → CqFits params cq_ptr
        → Gives os debug (Covers params) (map_sqes os debug flags fd params sq_ptr cq_ptr)
    unfolding map_sqes
    map_sqes-Gives flags sq_ptr cq_ptr w c h =
        attempt-Gives os debug
          (λ m. (m.size ≡ total_bytes (params.sq_entries * 64) 64) × (is_null (region m) ≡ false))
          (Covers params) _ _
          (io_uring_mmap-Gives os debug 64 fd (params.sq_entries * 64) off_sqes
            (λ g. nonnull g fd _ _))
          (λ m k. scoped-Gives os debug (Covers params) (region m) _ (λ g.
            let raw = if is_null (region cq_ptr) then sq_ptr else cq_ptr in
            build-Gives params
              (assembled flags fd params sq_ptr cq_ptr raw
                (os.load h (at sq_ptr params.sq_off.ring_mask))
                (os.load g (at raw params.cq_off.ring_mask)) m)
              (
                refl,
                array_fits sq_ptr w,
                refl,
                region_fits sq_ptr cq_ptr w c,
                omega (arith, range.0, k.0),
              )
              g))
          h

    map_rings-Gives :
        (flags : ℕ) → Gives os debug (Covers params) (map_rings os debug flags fd params)
    unfolding map_rings
    map_rings-Gives flags =
        attempt-Gives os debug (Whole (sq_size params)) (Covers params) _ _
          (io_uring_mmap-Gives os debug 1 fd (sq_size params) off_sq_ring (λ g. nonnull g fd _ _))
          (λ sq_ptr w. scoped-Gives os debug (Covers params) (region sq_ptr) _ (
            attempt-Gives os debug (CqFits params) (Covers params) _ _ map_cq-Gives (λ cq_ptr c.
              scoped-Gives os debug (Covers params) (region cq_ptr) _
                (map_sqes-Gives flags sq_ptr cq_ptr w c))))

  setup_ring-Gives :
      (capacity flags : ℕ) (h : History)
      → Ends debug
          (setup_ring os debug capacity flags h)
          (ValueIs os debug (λ (r : ℤ × Params). r.1 ≡ (os.setup h capacity flags).2))
  unfolding setup_ring
  setup_ring-Gives capacity flags h =
      let answer = os.setup h capacity flags in
      io_uring_setup-Ends debug (answer.0) (answer.1) (setup_result os debug (answer.2) h) _
        (λ f. refl) (λ e. tt)

  -- Where `create` gives an object, its two arrays lie within the mapping that they point into, and the
  -- submission entries have 64 times the bytes that they need. The kernel's numbers have 32 bits, and
  -- no mapping stands at address 0.
  pub create-Covers :
      (capacity flags : ℕ) (h : History)
      → ((g : History) (fd : ℤ) (n : ℕ) (off : Offset) → (os.map g fd n off).0 ≢ pos 0)
      → InRange ((os.setup h capacity flags).2)
      → Ends debug
          (create os debug capacity flags h)
          (ValueIs os debug (Covers ((os.setup h capacity flags).2)))
  unfolding create attempt
  create-Covers capacity flags h nonnull range =
      elim (Bool-cases (capacity == 0 || not (bit_and capacity (capacity - 1) == 0))) [
        | inl e ↦ rw (e, create) tt
        | inr e ↦
            rw (e, create)
              (Ends-bind debug (setup_ring os debug capacity flags h) _
                (ValueIs os debug (λ (r : ℤ × Params). r.1 ≡ (os.setup h capacity flags).2)) _
                (setup_ring-Gives capacity flags h) (λ x k. given x k))
      ]
    where
      params : Params
      params = (os.setup h capacity flags).2

      given :
          (x : Expected (ℤ × Params) CreateError × History)
          → ValueIs os debug (λ (r : ℤ × Params). r.1 ≡ params) x
          → Ends debug
              (elim (x.0) [
                | value r ↦
                    scoped os debug (descriptor (r.0)) (map_rings os debug flags (r.0) (r.1)) (x.1)
                | unexpected e ↦ returns (unexpected e, x.1)
              ])
              (ValueIs os debug (Covers params))
      given (value (fd, ps), g) k =
          scoped-Gives os debug (Covers params) (descriptor fd) (map_rings os debug flags fd ps)
            (subst (λ q. Gives os debug (Covers params) (map_rings os debug flags fd q)) (sym k)
              (map_rings-Gives nonnull fd params range flags))
            g
      given (unexpected e, g) k = tt

-- ===== src/Io/Iouring/Setup/Released.antt =====
-- The end of an `EventedIo`: the destructor gives back what the object owns.
use shclog.Prelude.{ℕ, ◌+◌, ◌≡◌, Bool, false, ◌∷◌, refl, arith, Option-cases, inl, inr}
use shclog.Io.Exec.{Exec, returns, value, unexpected, ◌>>=◌}
use shclog.Io.Iouring.Resources.{
  Resource, descriptor, region, object, called, History, System, Evented, RegisterOp,
  unregister_buffers_op, unregister_files_op, unregister_ring_fds_op,
}
use shclog.Io.Iouring.Setup.{give_back, drop, unregister, unregister_ring_fd, destroy, create}
use shclog.Io.Iouring.Setup.Ends.{
  Ends, Ends-bind, Ends-implies, assert-Ends, io_uring_register-Ends,
}
use shclog.Io.Iouring.Setup.Accounts.{
  ChoosesReal, weigh, gains, frees, owned, Dropped, drop-Dropped, give_back-Dropped,
}

module _ (os : System) (debug : Bool) where
  -- `create`, and the destructor of the object once it gave one.
  unfoldable pub lifetime : ℕ → ℕ → History → Exec History
  unfolding create destroy
  lifetime capacity flags h = create os debug capacity flags h >>= λ x. elim (x.0) [
    | value e ↦ destroy os debug e (x.1)
    | unexpected e ↦ returns (x.1)
  ]

module _ (os : System) (debug : Bool) (p : Resource → Bool) (real : ChoosesReal p) where
  -- `k` of the chosen resources were given back, and none was gained.
  abbrev pub Released : ℕ → History → History → Type 0
  Released k h h' = (gains p h' ≡ gains p h) × (frees p h' ≡ frees p h + k)

  unregister-Released :
      (op : RegisterOp) (e : Evented) (n : ℕ) (h : History)
      → Ends debug (unregister os debug op e n h) (Released 0 h)
  unfolding unregister
  unregister-Released op e n h =
      let answer = os.register h e.ring_fd op n in
      io_uring_register-Ends debug (answer.0) (answer.1) _ (Released 0 h) (λ v. (refl, omega arith))
        (λ x. assert-Ends debug false (returns (called op ∷ h)) (Released 0 h) (refl, omega arith))

  unregister_ring_fd-Released :
      (e : Evented) (h : History) → Ends debug (unregister_ring_fd os debug e h) (Released 0 h)
  unfolding unregister_ring_fd
  unregister_ring_fd-Released e h = elim (Option-cases e.registered_ring_fd) [
    | inl n ↦ rw (n, unregister_ring_fd) (refl, omega arith)
    | inr (slot, n) ↦ rw (n, unregister_ring_fd) (unregister-Released unregister_ring_fds_op e 1 h)
  ]

  -- One call after the other.
  then-Released :
      (m : Exec History) (f : History → Exec History) (j k : ℕ) (h : History)
      → Ends debug m (Released j h)
      → ((g : History) → Ends debug (f g) (Released k g))
      → Ends debug (m >>= f) (Released (j + k) h)
  then-Released m f j k h first next =
      Ends-bind debug m f (Released j h) (Released (j + k) h) first (λ g a.
        Ends-implies debug (f g) (Released k g) (Released (j + k) h) (next g)
          (λ g' b. (omega (arith, a.0, b.0), omega (arith, a.1, b.1))))

  drop-Released :
      (r : Resource) (h : History) → Ends debug (drop os debug r h) (Released (weigh p r) h)
  drop-Released r h =
      Ends-implies debug (drop os debug r h) (Dropped os debug p real r h) (Released (weigh p r) h)
        (drop-Dropped os debug p real r h) (λ g d. (d.0, omega (arith, d.1)))

  delete-Released :
      (h : History) → Ends debug (give_back os debug object h) (Released (weigh p object) h)
  delete-Released h =
      Ends-implies debug (give_back os debug object h) (Dropped os debug p real object h)
        (Released (weigh p object) h) (give_back-Dropped os debug p real object h)
        (λ g d. (d.0, omega (arith, d.1)))

  -- The destructor's own calls, then the rest.
  unregister_all-Released :
      (e : Evented) (h : History)
      → Ends debug
          (unregister os debug unregister_buffers_op e 0 h
            >>= unregister os debug unregister_files_op e 0
            >>= unregister_ring_fd os debug e)
          (Released (0 + 0 + 0) h)
  unregister_all-Released e h =
      then-Released
        (unregister os debug unregister_buffers_op e 0 h
          >>= unregister os debug unregister_files_op e 0)
        (unregister_ring_fd os debug e) (0 + 0) 0 h
        (then-Released (unregister os debug unregister_buffers_op e 0 h)
          (unregister os debug unregister_files_op e 0) 0 0 h
          (unregister-Released unregister_buffers_op e 0 h)
          (unregister-Released unregister_files_op e 0))
        (unregister_ring_fd-Released e)

  next_drop :
      (m : Exec History) (j : ℕ) (r : Resource) (h : History)
      → Ends debug m (Released j h)
      → Ends debug (m >>= drop os debug r) (Released (j + weigh p r) h)
  next_drop m j r h first =
      then-Released m (drop os debug r) j (weigh p r) h first (drop-Released r)

  pub destroy-Released :
      (e : Evented) (h : History) → Ends debug (destroy os debug e h) (Released (owned p e) h)
  unfolding destroy
  destroy-Released e h =
      let unregistered =
        unregister os debug unregister_buffers_op e 0 h
        >>= unregister os debug unregister_files_op e 0
        >>= unregister_ring_fd os debug e in
      let sqes = unregistered >>= drop os debug (region e.sqes) in
      let cq = sqes >>= drop os debug (region e.cq_ptr) in
      let sq = cq >>= drop os debug (region e.sq_ptr) in
      let fd = sq >>= drop os debug (descriptor e.ring_fd) in
      Ends-implies debug (fd >>= give_back os debug object)
        (Released
          (0
            + 0
            + 0
            + weigh p (region e.sqes)
            + weigh p (region e.cq_ptr)
            + weigh p (region e.sq_ptr)
            + weigh p (descriptor e.ring_fd)
            + weigh p object)
          h)
        (Released (owned p e) h)
        (then-Released fd (give_back os debug object) _ (weigh p object) h
          (next_drop sq _ (descriptor e.ring_fd) h (
            next_drop cq _ (region e.sq_ptr) h (
              next_drop sqes _ (region e.cq_ptr) h
                (next_drop unregistered _ (region e.sqes) h (unregister_all-Released e h)))))
          delete-Released)
        (λ g d. (d.0, omega (arith, d.1)))

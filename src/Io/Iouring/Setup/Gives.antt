-- ===== src/Io/Iouring/Setup/Gives.antt =====
-- What holds of the value that a part of `create` gives.
use shclog.Prelude.{ℕ, zero, suc, ◌^◌, ◌≡◌, ◌≢◌, Bool, true, false, ltb, Option, ◌∷◌, refl, arith}
use shclog.Prelude.Int.{ℤ, pos, negsuc, is_nonneg}
use shclog.Io.Exec.{returns, Expected, value, unexpected, ◌>>=◌}
use shclog.Io.Mmap.{Mapping, total_bytes}
use shclog.Io.Iouring.Calls.{io_uring_register}
use shclog.Io.Iouring.Resources.{
  Resource, region, called, History, System, Evented, Offset, CreateError, RingQueueAllocError,
  no_memory, unexpected_alloc, mmap_failure, is_null, register_ring_fds_op,
}
use shclog.Io.Iouring.Setup.{
  Act, attempt, drop, scoped, not_mapped, mmap_result, io_uring_mmap, keep_slot, register_ring_fd,
}
use shclog.Io.Iouring.Setup.Ends.{
  Ends, Ends-bind, debug_e_errno-Ends, assert-Ends, mmap-Ends, io_uring_register-Ends,
}
use shclog.Io.Iouring.Setup.Accounts.{Dropped, drop-Dropped}

chosen_none : (r : Resource) → false ≡ true → is_null r ≡ false
chosen_none r c = cc

not-null : (rc : ℤ) (m : Mapping) → m.address ≡ rc → rc ≢ pos 0 → is_null (region m) ≡ false
not-null (pos zero) m e nonzero = absurd (nonzero refl)
not-null (pos (suc n)) m e nonzero = rw e (ground arith)
not-null (negsuc n) m e nonzero = rw e refl

module _ (os : System) (debug : Bool) where
  abbrev pub ValueIs : {A : Type 0} → (A → Type 0) → Expected A CreateError × History → Type 0
  ValueIs Q x = elim (x.0) [ value a ↦ Q a | unexpected e ↦ Unit {0} ]

  pub ValueIs-implies :
      {A : Type 0} (P Q : A → Type 0) (x : Expected A CreateError × History)
      → ((a : A) → P a → Q a)
      → ValueIs P x
      → ValueIs Q x
  ValueIs-implies P Q (value a, h) k b = k a b
  ValueIs-implies P Q (unexpected e, h) k b = tt

  abbrev pub Gives : {A : Type 0} → (A → Type 0) → Act A → Type 0
  Gives Q m = (h : History) → Ends debug (m h) (ValueIs Q)

  pub attempt-Gives :
      {A B : Type 0} (P : A → Type 0) (Q : B → Type 0) (m : Act A) (f : A → Act B)
      → Gives P m
      → ((a : A) → P a → Gives Q (f a))
      → Gives Q (attempt m f)
  unfolding attempt
  attempt-Gives {A} P Q m f first next h =
      Ends-bind debug (m h) _ (ValueIs P) (ValueIs Q) (first h) (λ x k. go x k)
    where
      go :
          (x : Expected A CreateError × History)
          → ValueIs P x
          → Ends debug
              (elim (x.0) [ value a ↦ f a (x.1) | unexpected e ↦ returns (unexpected e, x.1) ])
              (ValueIs Q)
      go (value a, h') k = next a k h'
      go (unexpected e, h') k = tt

  pub scoped-Gives :
      {A : Type 0} (Q : A → Type 0) (r : Resource) (body : Act A)
      → Gives Q body
      → Gives Q (scoped os debug r body)
  unfolding scoped
  scoped-Gives {A} Q r body first h =
      Ends-bind debug (body h) _ (ValueIs Q) (ValueIs Q) (first h) (λ x k. go x k)
    where
      go :
          (x : Expected A CreateError × History)
          → ValueIs Q x
          → Ends debug
              (elim (x.0) [
                | value a ↦ returns (value a, x.1)
                | unexpected e ↦ drop os debug r (x.1) >>= λ h'. returns (unexpected e, h')
              ])
              (ValueIs Q)
      go (value a, h') k = k
      go (unexpected e, h') k =
          Ends-bind debug (drop os debug r h') _ (Dropped os debug (λ _. false) chosen_none r h')
            (ValueIs Q) (drop-Dropped os debug (λ _. false) chosen_none r h') (λ g d. tt)

  pub io_uring_mmap-Gives :
      (size_of : ℕ) (fd : ℤ) (size : ℕ) (off : Offset)
      → ((h : History) → (os.map h fd (total_bytes size size_of) off).0 ≢ pos 0)
      → Gives
          (λ m. (m.size ≡ total_bytes size size_of) × (is_null (region m) ≡ false))
          (io_uring_mmap os debug size_of fd size off)
  unfolding io_uring_mmap
  io_uring_mmap-Gives size_of fd size off nonnull h =
      let answer = os.map h fd (total_bytes size size_of) off in
      mmap-Ends debug (answer.0) (answer.1) size_of size (mmap_result os debug h) (ValueIs IsMap)
        (λ m a s. (s, not-null (answer.0) m a (nonnull h))) (λ e. failed (mmap_failure e))
    where
      IsMap : Mapping → Type 0
      IsMap m = (m.size ≡ total_bytes size size_of) × (is_null (region m) ≡ false)

      failed : (x : RingQueueAllocError) → Ends debug (not_mapped os debug h x) (ValueIs IsMap)
      failed no_memory = tt
      failed unexpected_alloc = debug_e_errno-Ends debug _ (ValueIs IsMap) tt

  pub register_ring_fd-Gives :
      (e : Evented) (h : History)
      → Ends debug
          (register_ring_fd os debug e h)
          (λ x. (o : Option ℤ) × (x.0 ≡ record e { registered_ring_fd = o }))
  unfolding register_ring_fd
  register_ring_fd-Gives e h =
      let answer = os.register h e.ring_fd register_ring_fds_op 1 in
      let h' = called register_ring_fds_op ∷ h in
      let Q =
        λ (x : Evented × History). (o : Option ℤ) × (x.0 ≡ record e { registered_ring_fd = o }) in
      assert-Ends debug (is_nonneg e.ring_fd)
        (io_uring_register debug (answer.0) (answer.1) >>= keep_slot os debug e h') Q
        (io_uring_register-Ends debug (answer.0) (answer.1) (keep_slot os debug e h') Q
          (λ n. assert-Ends debug (ltb (os.written_offset h') (2 ^ 31)) _ Q (_, refl))
          (λ x. (e.registered_ring_fd, refl)))

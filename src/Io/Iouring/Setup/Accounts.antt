-- ===== src/Io/Iouring/Setup/Accounts.antt =====
-- What a part of `create` gains, gives back and leaves to an owner.
use shclog.Prelude.{
  ℕ, ◌+◌, ◌≡◌, Bool, true, false, ◌==◌, if◌then◌else◌, [], ◌∷◌, refl, arith, Bool-cases, inl, inr,
}
use shclog.Io.Exec.{returns, Expected, value, unexpected, ◌>>=◌}
use shclog.Io.Errno
use shclog.Io.Syscall.{e_errno}
use shclog.Io.File.{close}
use shclog.Io.Mmap.{munmap}
use shclog.Io.Iouring.Resources.{
  Resource, descriptor, region, object, gained, freed, History, System, Evented, CreateError,
  is_null,
}
use shclog.Io.Iouring.Setup.{Act, attempt, give_back, drop, scoped}
use shclog.Io.Iouring.Setup.Ends.{Ends, Ends-bind, Ends-implies, debug_e_errno-Ends}
use shclog.Io.Errno.{Errno}
use shclog.Io.Syscall.{debug_e_errno}

-- Resources of some kind: the test `p` chooses them, and a `-1` or a null pointer is none.
abbrev pub weigh : (Resource → Bool) → Resource → ℕ
weigh p r = if p r then 1 else 0

abbrev pub ChoosesReal : (Resource → Bool) → Type 0
ChoosesReal p = (r : Resource) → p r ≡ true → is_null r ≡ false

abbrev pub gains : (Resource → Bool) → History → ℕ
gains p [] = 0
gains p (gained r ∷ h) = weigh p r + gains p h
gains p (_ ∷ h) = gains p h

abbrev pub frees : (Resource → Bool) → History → ℕ
frees p [] = 0
frees p (freed r ∷ h) = weigh p r + frees p h
frees p (_ ∷ h) = frees p h

-- what the members and the object itself come to
abbrev pub owned : (Resource → Bool) → Evented → ℕ
owned p e =
    weigh p (descriptor e.ring_fd)
    + weigh p (region e.sq_ptr)
    + weigh p (region e.cq_ptr)
    + weigh p (region e.sqes)
    + weigh p object

module _ (os : System) (debug : Bool) (p : Resource → Bool) (real : ChoosesReal p) where
  -- A value takes over `base` resources that outer scopes hold; an error leaves `lost` fewer.
  abbrev pub After :
      {A : Type 0} → (A → ℕ) → ℕ → ℕ → History → Expected A CreateError × History → Type 0
  After v base lost h x = elim (x.0) [
    | value a ↦ gains p (x.1) + frees p h + base ≡ gains p h + frees p (x.1) + v a
    | unexpected e ↦ gains p (x.1) + frees p h + lost ≡ gains p h + frees p (x.1)
  ]

  abbrev pub Runs : {A : Type 0} → (A → ℕ) → ℕ → ℕ → Act A → Type 0
  Runs v base lost m = (h : History) → Ends debug (m h) (After v base lost h)

  -- Nothing but a resource's end is written down.
  abbrev pub Dropped : Resource → History → History → Type 0
  Dropped r h h' = (gains p h' ≡ gains p h) × (frees p h' ≡ weigh p r + frees p h)

  settled :
      (r : Resource) (h : History) (code : Errno)
      → Ends debug
          ((if code == Errno.success then returns tt else debug_e_errno debug tt) >>= λ _.
            returns (freed r ∷ h))
          (Dropped r h)
  settled r h code = elim (Bool-cases (code == Errno.success)) [
    | inl e ↦ rw e (refl, refl)
    | inr e ↦ rw e (
        Ends-bind debug (debug_e_errno debug tt) (λ _. returns (freed r ∷ h)) (λ _. Unit {0})
          (Dropped r h) (debug_e_errno-Ends debug tt (λ _. Unit {0}) tt) (λ _ _. (refl, refl)))
  ]

  pub give_back-Dropped :
      (r : Resource) (h : History) → Ends debug (give_back os debug r h) (Dropped r h)
  unfolding give_back close munmap
  give_back-Dropped object h = (refl, refl)
  give_back-Dropped (descriptor f) h =
      settled (descriptor f) h
        (e_errno ((os.free h (descriptor f)).0) ((os.free h (descriptor f)).1))
  give_back-Dropped (region m) h =
      settled (region m) h (e_errno ((os.free h (region m)).0) ((os.free h (region m)).1))

  pub weigh_null : (r : Resource) → is_null r ≡ true → weigh p r ≡ 0
  weigh_null r n = elim (Bool-cases (p r)) [ inl e ↦ let v = real r e in cc | inr e ↦ rw e refl ]

  pub drop-Dropped : (r : Resource) (h : History) → Ends debug (drop os debug r h) (Dropped r h)
  unfolding drop
  drop-Dropped r h = elim (Bool-cases (is_null r)) [
    | inl e ↦ rw (e, drop) (refl, omega (arith, weigh_null r e))
    | inr e ↦ rw (e, drop) (give_back-Dropped r h)
  ]

  pub attempt-Runs :
      {A B : Type 0} (u : A → ℕ) (v : B → ℕ) (base : ℕ) (m : Act A) (f : A → Act B)
      → Runs u 0 0 m
      → ((a : A) → Runs v (base + u a) (u a) (f a))
      → Runs v base 0 (attempt m f)
  unfolding attempt
  attempt-Runs {A} {B} u v base m f first next h =
      Ends-bind debug (m h) _ (After u 0 0 h) (After v base 0 h) (first h) (λ x b. go x b)
    where
      go :
          (x : Expected A CreateError × History)
          → After u 0 0 h x
          → Ends debug
              (elim (x.0) [ value a ↦ f a (x.1) | unexpected e ↦ returns (unexpected e, x.1) ])
              (After v base 0 h)
      go (value a, h') b =
          Ends-implies debug (f a h') (After v (base + u a) (u a) h') (After v base 0 h) (next a h')
            (λ y c. both y c)
        where
          both :
              (y : Expected B CreateError × History)
              → After v (base + u a) (u a) h' y
              → After v base 0 h y
          both (value c, g) k = omega (arith, b, k)
          both (unexpected e, g) k = omega (arith, b, k)
      go (unexpected e, h') b = b

  pub scoped-Runs :
      {A : Type 0} (v : A → ℕ) (base : ℕ) (r : Resource) (body : Act A)
      → Runs v (base + weigh p r) 0 body
      → Runs v (base + weigh p r) (weigh p r) (scoped os debug r body)
  unfolding scoped
  scoped-Runs {A} v base r body first h =
      Ends-bind debug (body h) _ (After v (base + weigh p r) 0 h)
        (After v (base + weigh p r) (weigh p r) h) (first h) (λ x b. go x b)
    where
      go :
          (x : Expected A CreateError × History)
          → After v (base + weigh p r) 0 h x
          → Ends debug
              (elim (x.0) [
                | value a ↦ returns (value a, x.1)
                | unexpected e ↦ drop os debug r (x.1) >>= λ h'. returns (unexpected e, h')
              ])
              (After v (base + weigh p r) (weigh p r) h)
      go (value a, h') b = b
      go (unexpected e, h') b =
          Ends-bind debug (drop os debug r h') _ (Dropped r h')
            (After v (base + weigh p r) (weigh p r) h) (drop-Dropped r h')
            (λ g d. omega (arith, b, d.0, d.1))

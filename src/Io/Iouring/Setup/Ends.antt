-- ===== src/Io/Iouring/Setup/Ends.antt =====
-- What holds when a call returns, with the ways in which it may end otherwise: it is never undefined,
-- and only a debug build aborts.
use shclog.Prelude.{
  ℕ, ◌^◌, Bool, true, false, not, ◌||◌, if◌then◌else◌, ◌==◌, ◌≡◌, refl, sym, subst, List,
  Bool-cases, Option-cases, inl, inr,
}
use shclog.Io.Exec.{Exec, returns, aborts, undefined, Expected, value, unexpected, switch, ◌>>=◌}
use shclog.Io.Errno
use shclog.Io.Errno.{Errno}
use shclog.Io.Syscall.{e_errno, e_errno_ptr, debug_e_errno, settle}
use shclog.Prelude.Int.{ℤ, to_i32, to_unsigned}
use shclog.Io.Mmap.{Mapping, MmapError, mmap, total_bytes, mmap_cases, unexpected_mmap}
use shclog.Io.Iouring.Calls.{
  SetupError, RegisterError, io_uring_setup, io_uring_register, setup_cases, unexpected_setup,
  register_cases, unexpected_register,
}

abbrev pub Ends : {A : Type 0} → Bool → Exec A → (A → Type 0) → Type 0
Ends debug (returns a) Q = Q a
Ends debug aborts Q = debug ≡ true
Ends debug undefined Q = ⊥

pub Ends-bind :
    {A B : Type 0} (debug : Bool) (m : Exec A) (f : A → Exec B) (P : A → Type 0) (Q : B → Type 0)
    → Ends debug m P
    → ((a : A) → P a → Ends debug (f a) Q)
    → Ends debug (m >>= f) Q
Ends-bind debug (returns a) f P Q h k = k a h
Ends-bind debug aborts f P Q h k = h
Ends-bind debug undefined f P Q h k = h

pub Ends-implies :
    {A : Type 0} (debug : Bool) (m : Exec A) (P Q : A → Type 0)
    → Ends debug m P
    → ((a : A) → P a → Q a)
    → Ends debug m Q
Ends-implies debug (returns a) P Q h k = k a h
Ends-implies debug aborts P Q h k = h
Ends-implies debug undefined P Q h k = h

pub debug_e_errno-Ends :
    {A : Type 0} (debug : Bool) (a : A) (Q : A → Type 0)
    → Q a
    → Ends debug (debug_e_errno debug a) Q
debug_e_errno-Ends true a Q q = refl
debug_e_errno-Ends false a Q q = q

-- A wrapper ends with its value or an error, or with the abort of a debug build.
pub settle-Ends :
    {T E A : Type 0} (debug : Bool) (cases : List (List ℕ × E)) (other : E) (code : Errno) (v : T)
    (f : Expected T E → Exec A) (Q : A → Type 0)
    → Ends debug (f (value v)) Q
    → ((e : E) → Ends debug (f (unexpected e)) Q)
    → Ends debug (settle debug cases other code v >>= f) Q
settle-Ends debug cases other code v f Q good bad = elim (Bool-cases (code == Errno.success)) [
  | inl e ↦ rw (e, settle) good
  | inr e ↦
      rw (e, settle)
        (elim (Option-cases (switch cases code)) [
          | inl n ↦ rw n (
              Ends-bind debug (debug_e_errno debug (unexpected other)) f (λ r. r ≡ unexpected other)
                Q (debug_e_errno-Ends debug (unexpected other) (λ r. r ≡ unexpected other) refl)
                (λ r h. subst (λ x. Ends debug (f x) Q) (sym h) (bad other)))
          | inr (x, n) ↦ rw n (bad x)
        ])
]

-- An `assert`, which a release build does not have.
pub assert-Ends :
    {A : Type 0} (debug test : Bool) (m : Exec A) (Q : A → Type 0)
    → Ends debug m Q
    → Ends debug (if test || not debug then m else aborts) Q
assert-Ends debug true m Q q = q
assert-Ends true false m Q q = refl
assert-Ends false false m Q q = q

module _ {A : Type 0} (debug : Bool) (rc errno : ℤ) where
  pub io_uring_setup-Ends :
      (f : Expected ℤ SetupError → Exec A) (Q : A → Type 0)
      → ((v : ℤ) → Ends debug (f (value v)) Q)
      → ((e : SetupError) → Ends debug (f (unexpected e)) Q)
      → Ends debug (io_uring_setup debug rc errno >>= f) Q
  unfolding io_uring_setup
  io_uring_setup-Ends f Q good =
      settle-Ends debug setup_cases unexpected_setup (e_errno rc errno) (to_i32 rc) f Q
        (good (to_i32 rc))

  pub mmap-Ends :
      (size_of len : ℕ) (f : Expected Mapping MmapError → Exec A) (Q : A → Type 0)
      → ((m : Mapping)
          → m.address ≡ rc
          → m.size ≡ total_bytes len size_of
          → Ends debug (f (value m)) Q)
      → ((e : MmapError) → Ends debug (f (unexpected e)) Q)
      → Ends debug (mmap debug size_of len rc errno >>= f) Q
  unfolding mmap
  mmap-Ends size_of len f Q good =
      let m : Mapping = record { address = rc; size = total_bytes len size_of } in
      settle-Ends debug mmap_cases unexpected_mmap (e_errno_ptr rc errno) m f Q (good m refl refl)

  pub io_uring_register-Ends :
      (f : Expected ℕ RegisterError → Exec A) (Q : A → Type 0)
      → ((v : ℕ) → Ends debug (f (value v)) Q)
      → ((e : RegisterError) → Ends debug (f (unexpected e)) Q)
      → Ends debug (io_uring_register debug rc errno >>= f) Q
  unfolding io_uring_register
  io_uring_register-Ends f Q good =
      settle-Ends debug register_cases unexpected_register (e_errno rc errno)
        (to_unsigned (2 ^ 32) rc) f Q (good (to_unsigned (2 ^ 32) rc))

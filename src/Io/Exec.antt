-- ===== src/Io/Exec.antt =====
-- How a function of the io headers can end, `std::expected`, and the `switch` on an error code that
-- the wrappers share.
use shclog.Prelude.{ℕ, Bool, false, ◌==◌, ◌||◌, if◌then◌else◌, Option, none, some, List, [], ◌∷◌}

-- `aborts` is `std::abort()`, and `undefined` is `std::unreachable()`.
pub data Exec (A : Type 0) : Type 0 where
  returns : A → Exec A
  aborts : Exec A
  undefined : Exec A

infixl 5 ◌>>=◌
abbrev pub ◌>>=◌ : {A B : Type 0} → Exec A → (A → Exec B) → Exec B
returns a >>= f = f a
aborts >>= f = aborts
undefined >>= f = undefined

pub data Expected (T E : Type 0) : Type 0 where
  value : T → Expected T E
  unexpected : E → Expected T E

abbrev pub member : List ℕ → ℕ → Bool
member [] e = false
member (l ∷ labels) e = (l == e) || member labels e

-- The labels of each case with what it yields; `none` is the default.
abbrev pub switch : {A : Type 0} → List (List ℕ × A) → ℕ → Option A
switch [] e = none
switch ((labels, a) ∷ cases) e = if member labels e then some a else switch cases e

-- ===== src/Collections/Slice/Examples.antt =====
-- Runs of a slice, and its theorems at concrete inputs.
use shclog.Prelude.{
  ◌^◌, ◌-◌, ◌≡◌, true, false, some, [], ◌∷◌, replicate, length-replicate, refl, arith,
}
use shclog.Io.Exec.{returns, aborts, undefined, ◌>>=◌}
use shclog.Collections.Slice.{Slice, view, make, index, first, of_array, equal}
use shclog.Collections.Slice.Room.{IsRoomy, make-IsRoomy, make_wraps}

-- "ab" and its zero byte.
abbrev text : Slice
text = record { elements = b'a' ∷ b'b' ∷ 0 ∷ []; len = 2 }

literal : of_array true (some 0) (b'a' ∷ b'b' ∷ 0 ∷ []) ≡ returns text
unfolding of_array
literal = refl

indexes : index true text 1 ≡ returns b'b'
unfolding index
indexes = refl

stops : index true text 2 ≡ aborts
unfolding index
stops = refl

prefix_views : (first true text 1 >>= λ s. returns (view s)) ≡ returns (b'a' ∷ [])
unfolding first view
prefix_views = refl

compares : equal (view text) (b'a' ∷ b'c' ∷ []) ≡ false
unfolding equal view
compares = refl

make-IsRoomy_example :
    (s : Slice) × (make true (λ _. true) (λ n. replicate n 7) 16 1 (some 0) 2 ≡ returns (some s))
    × IsRoomy (some 0) 2 s
make-IsRoomy_example =
    make-IsRoomy true (λ _. true) (λ n. replicate n 7) 16 1 (some 0) 2 (omega arith)
      (λ n. length-replicate n 7) (omega arith) refl

make_wraps_example :
    make true (λ _. true) (λ n. replicate n 7) 16 1 (some 0) (2 ^ 64 - 1) ≡ undefined
make_wraps_example =
    make_wraps true (λ _. true) (λ n. replicate n 7) 16 1 0 (omega arith)
      (λ n. length-replicate n 7) (omega arith) refl

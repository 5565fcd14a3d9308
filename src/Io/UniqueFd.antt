-- ===== src/Io/UniqueFd.antt =====
-- `unique_fd` of include/shclog/io/file.hpp, over a store of two handles: every descriptor that a
-- handle takes over is closed by it or released, once.
use shclog.Prelude.{ℕ, ◌+◌, ◌==◌, ◌≡◌, Bool, true, false, if◌then◌else◌, List, [], ◌∷◌, arith}

-- A descriptor, or the `-1` of an empty handle.
pub data Fd : Type 0 where
  invalid : Fd
  fd : ℕ → Fd

-- Two handles, and the descriptors that have been given to `close`, the latest first.
pub record Handles : Type 0 where
  pub first : Fd
  pub second : Fd
  pub closed : List ℕ
  pub released : List ℕ

pub data Name : Type 0 where
  one two : Name

abbrev pub read_handle : Handles → Name → Fd
read_handle s one = s.first
read_handle s two = s.second

abbrev pub write_handle : Handles → Name → Fd → Handles
write_handle s one f = record s { first = f }
write_handle s two f = record s { second = f }

-- `if (fd != -1) close(fd);`
abbrev pub close_valid : Handles → Fd → Handles
close_valid s invalid = s
close_valid s (fd n) = record s { closed = n ∷ s.closed }

-- `reset(f)`
unfoldable pub reset : Handles → Name → Fd → Handles
reset s h f = write_handle (close_valid s (read_handle s h)) h f

-- `release()`: the caller has the descriptor.
abbrev pub give_out : Handles → Fd → Handles
give_out s invalid = s
give_out s (fd n) = record s { released = n ∷ s.released }

unfoldable pub release : Handles → Name → Handles
release s h = write_handle (give_out s (read_handle s h)) h invalid

abbrev pub same_name : Name → Name → Bool
same_name one one = true
same_name two two = true
same_name _ _ = false

-- `h = std::move(other)`, with its check for a move to itself
unfoldable pub move_assign : Handles → Name → Name → Handles
unfolding reset
move_assign s h other =
    if same_name h other
    then s
    else (let f = read_handle s other in
        write_handle (write_handle (reset s h invalid) other invalid) h f)

-- `~unique_fd()`
unfoldable pub destroy : Handles → Name → Handles
destroy s h = close_valid s (read_handle s h)

pub data Op : Type 0 where
  reset_to : Name → Fd → Op
  release_from : Name → Op
  move_to : Name → Name → Op

unfoldable pub apply : Handles → Op → Handles
apply s (reset_to h f) = reset s h f
apply s (release_from h) = release s h
apply s (move_to h other) = move_assign s h other

-- The operations, then the destructors of both handles in the reverse order of construction.
unfoldable pub run : Handles → List Op → Handles
run s [] = destroy (destroy s two) one
run s (op ∷ ops) = run (apply s op) ops

-- how often the descriptor `n` stands in a list, in a handle, among what the operations take over
abbrev pub count : ℕ → List ℕ → ℕ
count n [] = 0
count n (m ∷ l) = (if m == n then 1 else 0) + count n l

abbrev pub held : ℕ → Fd → ℕ
held n invalid = 0
held n (fd m) = if m == n then 1 else 0

abbrev pub taken_over : ℕ → List Op → ℕ
taken_over n [] = 0
taken_over n (reset_to h f ∷ ops) = held n f + taken_over n ops
taken_over n (_ ∷ ops) = taken_over n ops

abbrev pub accounted : ℕ → Handles → ℕ
accounted n s = held n s.first + held n s.second + count n s.closed + count n s.released

apply-accounted :
    (n : ℕ) (s : Handles) (op : Op)
    → accounted n (apply s op) ≡ accounted n s + taken_over n (op ∷ [])
unfolding apply reset release move_assign
apply-accounted n s op = ground arith

-- When both handles are gone, each descriptor has been closed or released exactly as often as it was
-- taken over: none is leaked, and none is closed twice.
pub run_balances :
    (n : ℕ) (s : Handles) (ops : List Op)
    → count n (run s ops).closed + count n (run s ops).released ≡ accounted n s + taken_over n ops
unfolding run destroy
run_balances n s [] = ground arith
run_balances n s (op ∷ ops) =
    ground (arith, run_balances n (apply s op) ops, apply-accounted n s op)

-- ===== src/Io/Examples.antt =====
-- Runs of the io wrappers, and their theorems at concrete inputs.
use shclog.Prelude.{
  ℕ, zero, suc, ◌+◌, ◌^◌, ◌≡◌, ◌≢◌, refl, true, false, arith, none, List, [], ◌∷◌, ◌++◌, ◌<◌, ◌-◌,
  ◌%◌, get_or,
}
use shclog.Prelude.Int.{ℤ, pos, negsuc}
use shclog.Io.Iouring.Calls.{io_uring_enter}
use shclog.Io.Exec.{aborts, returns, undefined, Expected, unexpected}
use shclog.Io.File.{fd_is_dir, open_file, pwrite64, pwritev, pread}
use shclog.Io.Mmap.{mmap}
use shclog.Io.UniqueFd.{
  Handles, invalid, fd, one, two, Op, reset_to, release_from, move_to, run, count, accounted,
  taken_over, run_balances,
}
use shclog.Io.Iouring.Calls.{io_uring_setup, io_uring_enter, io_uring_register}
use shclog.Io.Iouring.Completions.{writev_result, write_result, read_result}
use shclog.Io.Iouring.Ring.{
  no_request, EventedIo, Kernel, PopError, completion_check_error, publish, push, notify, pop_one,
}
use shclog.Io.Iouring.Ring.Submit.{Queued, push_appends}
use shclog.Io.Iouring.Ring.Complete.{Completed, Taken, pop_one-EndsAs}
use shclog.Io.Iouring.Ring.Pops.{pop_writev, pop_write, pop_read, Reports, pops-Report}
use shclog.Io.Outcomes.{Fails, completions_settle, calls_fail}

open_dir : open_file false 0 (negsuc 0) (pos 21) ≡ returns (unexpected fd_is_dir)
unfolding open_file
open_dir = refl

completions_settle_example :
    (writev_result true (negsuc 400) ≢ undefined)
    × (write_result true (negsuc 400) ≢ undefined)
    × (read_result true (negsuc 400) ≢ undefined)
    × Fails (writev_result false (negsuc 27))
    × Fails (write_result false (negsuc 27))
    × Fails (read_result false (negsuc 27))
completions_settle_example = completions_settle true (negsuc 400) 27

calls_fail_example :
    Fails (open_file false 0 (negsuc 0) (pos 5))
    × Fails (pwrite64 false (negsuc 0) (pos 5))
    × Fails (pwritev false (negsuc 0) (pos 5))
    × Fails (pread false (negsuc 0) (pos 5))
    × Fails (mmap false 64 8 (negsuc 0) (pos 5))
    × Fails (io_uring_setup false (negsuc 0) (pos 5))
    × Fails (io_uring_enter false (negsuc 0) (pos 5))
    × Fails (io_uring_register false (negsuc 0) (pos 5))
calls_fail_example = calls_fail 0 64 8 0 5 (omega arith)

abbrev no_handles : Handles
no_handles = record { first = invalid; second = invalid; closed = []; released = [] }

-- open 3 and 4, move the second handle over the first, release it
abbrev juggle : List Op
juggle = reset_to one (fd 3) ∷ reset_to two (fd 4) ∷ move_to one two ∷ release_from one ∷ []

run_balances_example :
    count 3 (run no_handles juggle).closed + count 3 (run no_handles juggle).released
    ≡ accounted 3 no_handles + taken_over 3 juggle
run_balances_example = run_balances 3 no_handles juggle

-- a ring of two entries whose counters are about to wrap
abbrev wrapping : EventedIo
wrapping = record {
  ring_fd = pos 5;
  sq_head = 2 ^ 32 - 1;
  sq_tail = 2 ^ 32 - 1;
  need_wakeup = false;
  sq_array = 0 ∷ 0 ∷ [];
  sq_mask = 1;
  sqes = no_request ∷ no_request ∷ [];
  cq_head = 2 ^ 32 - 1;
  cq_tail = 0;
  cq_mask = 1;
  cqes = pos 10 ∷ pos 11 ∷ [];
  is_sq_poll = false;
  registered_ring_fd = none;
}

-- a kernel that leaves the rings alone and reports one entry
abbrev still : Kernel
still = λ args e. (e, pos 1, pos 0)

no_entry : (j : ℕ) {A : Type 0} → j < 0 → A
no_entry j l = absurd (omega arith)

wrapping-Queued : Queued 1 wrapping (2 ^ 32 - 1) []
wrapping-Queued = record {
  small = omega arith;
  mask = refl;
  array_width = refl;
  entries_width = refl;
  head = refl;
  tail = refl;
  room = omega arith;
  indices = λ j l. no_entry j l;
  entries = λ j l. no_entry j l;
}

push_appends_example :
    (push still false wrapping (returns no_request)
      ≡ notify still false (publish wrapping wrapping.sq_tail no_request))
    × Queued 1 (publish wrapping wrapping.sq_tail no_request) (2 ^ 32 - 1) ([] ++ (no_request ∷ []))
push_appends_example = push_appends still false wrapping-Queued no_request (omega arith)

-- both entries in use
abbrev once : EventedIo
once = publish wrapping wrapping.sq_tail no_request

once-Queued : Queued 1 once (2 ^ 32 - 1) (no_request ∷ [])
once-Queued = push_appends_example.1

abbrev full_ring : EventedIo
full_ring = publish once once.sq_tail no_request

full_ring-Queued : Queued 1 full_ring (2 ^ 32 - 1) (no_request ∷ no_request ∷ [])
full_ring-Queued = (push_appends still false once-Queued no_request (omega arith)).1

wrapping-Completed : Completed 1 wrapping (2 ^ 32 - 1) (pos 11 ∷ [])
wrapping-Completed = record {
  small = omega arith;
  mask = refl;
  head = refl;
  tail = refl;
  room = omega arith;
  entries = only;
}
  where
    only :
        (j : ℕ)
        → j < 1
        → get_or wrapping.cqes ((2 ^ 32 - 1 + j) % 2 ^ 1) (pos 0) ≡ get_or (pos 11 ∷ []) j (pos 0)
    only zero l = refl
    only (suc j) l = absurd (omega arith)

pop_one-EndsAs_example :
    (p : EventedIo × Expected ℤ PopError) × (pop_one still false wrapping ≡ returns p)
    × Taken 1 wrapping (2 ^ 32 - 1) (pos 11 ∷ []) p
pop_one-EndsAs_example =
    pop_one-EndsAs still false wrapping wrapping (pos 1) (pos 0) 1 (2 ^ 32 - 1) (pos 11 ∷ []) refl
      wrapping-Completed

-- a kernel whose wait is interrupted
abbrev interrupted : Kernel
interrupted args e = (e, negsuc 0, pos 4)

interrupted_debug : pop_one interrupted true wrapping ≡ aborts
unfolding pop_one io_uring_enter
interrupted_debug = refl

interrupted_release :
    pop_one interrupted false wrapping ≡ returns (wrapping, unexpected completion_check_error)
unfolding pop_one io_uring_enter
interrupted_release = refl

-- the kernel's other answer: ten bytes
abbrev ten_bytes : EventedIo
ten_bytes = record wrapping { cq_head = 0; cq_tail = 1 }

ten_bytes-Completed : Completed 1 ten_bytes 0 (pos 10 ∷ [])
ten_bytes-Completed = record {
  small = omega arith;
  mask = refl;
  head = refl;
  tail = refl;
  room = omega arith;
  entries = only;
}
  where
    only :
        (j : ℕ)
        → j < 1
        → get_or ten_bytes.cqes ((0 + j) % 2 ^ 1) (pos 0) ≡ get_or (pos 10 ∷ []) j (pos 0)
    only zero l = refl
    only (suc j) l = absurd (omega arith)

pops-Report_example :
    Reports 1 ten_bytes 0 (pos 1) (pos 0) (pos 10 ∷ []) (pop_writev still false ten_bytes)
    × Reports 1 ten_bytes 0 (pos 1) (pos 0) (pos 10 ∷ []) (pop_write still false ten_bytes)
    × Reports 1 ten_bytes 0 (pos 1) (pos 0) (pos 10 ∷ []) (pop_read still false ten_bytes)
pops-Report_example =
    pops-Report still ten_bytes ten_bytes (pos 1) (pos 0) 1 0 (pos 10 ∷ []) refl ten_bytes-Completed

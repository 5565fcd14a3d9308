-- ===== src/Io/Iouring/Ring.antt =====
-- The submission and the completion ring of `EventedIo`. The kernel shares the rings: what it does
-- inside an `io_uring_enter` is a parameter. Pointers are numbers. The entries that it shares are
-- read without regard to the release and acquire marks.
pub mod Requests
pub mod Submit
pub mod Complete
pub mod Pops
use shclog.Prelude.{
  ℕ, suc, ◌+◌, ◌-◌, ◌%◌, ◌^◌, bit_and, Bool, true, false, ◌&&◌, leb, ltb, ◌==◌, if◌then◌else◌,
  Option, none, some, List, [], ◌∷◌, get_or, set,
}
use shclog.Prelude.Int.{ℤ, pos, negsuc}
use shclog.Io.Exec.{Exec, returns, aborts, undefined, Expected, value, unexpected}
use shclog.Io.Iouring.Calls.{io_uring_enter}

pub data Opcode : Type 0 where
  nop write_fixed write writev_fixed writev read_fixed read : Opcode

-- The fields of an `io_uring_sqe` that the pushes set.
pub record Sqe : Type 0 where
  pub opcode : Opcode
  pub fd : ℤ
  pub addr : ℕ
  pub len : ℕ
  pub off : ℕ
  pub flags : ℕ
  pub buf_index : ℕ
  pub rw_flags : ℕ

-- `*sqe = {}`
abbrev pub no_request : Sqe
no_request = record {
  opcode = nop;
  fd = pos 0;
  addr = 0;
  len = 0;
  off = 0;
  flags = 0;
  buf_index = 0;
  rw_flags = 0;
}

pub record EventedIo : Type 0 where
  pub ring_fd : ℤ
  pub sq_head : ℕ
  pub sq_tail : ℕ
  pub need_wakeup : Bool  -- `*sq_flags & IORING_SQ_NEED_WAKEUP`
  pub sq_array : List ℕ
  pub sq_mask : ℕ
  pub sqes : List Sqe
  pub cq_head : ℕ
  pub cq_tail : ℕ
  pub cq_mask : ℕ
  pub cqes : List ℤ  -- the `res` of each entry
  pub is_sq_poll : Bool
  pub registered_ring_fd : Option ℤ

-- `IORING_ENTER_GETEVENTS`, `_SQ_WAKEUP` and `_REGISTERED_RING`, as flags
pub record EnterFlags : Type 0 where
  pub get_events : Bool
  pub sq_wakeup : Bool
  pub registered_ring : Bool

pub record EnterArgs : Type 0 where
  pub fd : ℤ
  pub to_submit : ℕ
  pub min_complete : ℕ
  pub enter_flags : EnterFlags

-- What the kernel makes of a call: the rings after it, what the call returns, and `errno`.
abbrev pub Kernel : Type 0
Kernel = EnterArgs → EventedIo → EventedIo × ℤ × ℤ

abbrev pub is_registered : Option ℤ → Bool
is_registered none = false
is_registered (some f) = true

abbrev pub get_ring_fd : EventedIo → ℤ
get_ring_fd e = elim e.registered_ring_fd [ none ↦ e.ring_fd | some f ↦ f ]

-- `extra_enter_flags`, joined to the flags of the call
abbrev pub enter_args : EventedIo → ℕ → ℕ → Bool → Bool → EnterArgs
enter_args e to_submit min_complete get_events sq_wakeup = record {
  fd = get_ring_fd e;
  to_submit = to_submit;
  min_complete = min_complete;
  enter_flags = record {
    get_events = get_events;
    sq_wakeup = sq_wakeup;
    registered_ring = is_registered e.registered_ring_fd;
  };
}

abbrev pub add_u32 : ℕ → ℕ → ℕ
add_u32 a b = (a + b) % 2 ^ 32

abbrev pub sub_u32 : ℕ → ℕ → ℕ
sub_u32 a b = (a + 2 ^ 32 - b) % 2 ^ 32

unfoldable pub next_sq_slot : EventedIo → Option ℕ
next_sq_slot e =
    if leb (add_u32 e.sq_mask 1) (sub_u32 e.sq_tail e.sq_head) then none else some e.sq_tail

pub data PushResult : Type 0 where
  success wake_failed queue_is_full : PushResult

pub data PopError : Type 0 where
  completion_check_error ring_empty : PopError

-- What a push hands to the kernel: the request at its index, then the index, then the tail.
unfoldable pub publish : EventedIo → ℕ → Sqe → EventedIo
publish e slot sqe =
    let index = bit_and slot e.sq_mask in
    record e {
      sqes = set e.sqes index sqe;
      sq_array = set e.sq_array index index;
      sq_tail = add_u32 slot 1;
    }

-- `has_value()` of what the call of `io_uring_enter` returned
abbrev pub wake_result :
    {E : Type 0} → EventedIo → Exec (Expected ℕ E) → Exec (EventedIo × PushResult)
wake_result e (returns (value n)) = returns (e, success)
wake_result e (returns (unexpected x)) = returns (e, wake_failed)
wake_result e aborts = aborts
wake_result e undefined = undefined

-- The answer of `pop_one` once the wait has ended.
unfoldable pub take_completion : EventedIo → EventedIo × Expected ℤ PopError
take_completion e = if e.cq_head == e.cq_tail then (e, unexpected ring_empty) else (
  record e { cq_head = add_u32 e.cq_head 1 },
  value (get_or e.cqes (bit_and e.cq_head e.cq_mask) (pos 0)),
)

module _ (kernel : Kernel) (debug : Bool) where
  -- The end of `submit`, from the test of the wake-up flag on.
  unfoldable pub notify : EventedIo → Exec (EventedIo × PushResult)
  notify e =
      let args =
        if e.is_sq_poll && e.need_wakeup
        then enter_args e 0 0 false true
        else enter_args e 1 0 false false in
      let (e', rc, errno) = kernel args e in wake_result e' (io_uring_enter debug rc errno)

  -- The three pushes share this shape: find a slot, write the entry, `submit`.
  unfoldable pub push : EventedIo → Exec Sqe → Exec (EventedIo × PushResult)
  push e request = elim (next_sq_slot e) [
    | none ↦ returns (e, queue_is_full)
    | some slot ↦ elim request [
      | returns sqe ↦ notify (publish e slot sqe)
      | aborts ↦ aborts
      | undefined ↦ undefined
    ]
  ]

  unfoldable pub pop_one : EventedIo → Exec (EventedIo × Expected ℤ PopError)
  unfolding take_completion
  pop_one e =
      let (e', rc, errno) = kernel (enter_args e 0 1 true false) e in
      elim (io_uring_enter debug rc errno) [
        | returns r ↦ elim r [
          | value n ↦ returns (take_completion e')
          | unexpected x ↦ returns (e', unexpected completion_check_error)
        ]
        | aborts ↦ aborts
        | undefined ↦ undefined
      ]

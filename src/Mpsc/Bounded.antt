-- ===== src/Mpsc/Bounded.antt =====
-- `MPSCQueue` of include/shclog/mpsc_queue.hpp: `create`, `enqueue`, `dequeue`, the destructor.
-- An item is a number, the address of the object that a `unique_ptr` owns. A null slot or pointer
-- is `none`. Calls here run alone, from the first access to the last; `Threads` interleaves them.
pub mod Create
pub mod Window
pub mod Held
pub mod Fifo
pub mod Threads
use mathlib.Core.Option
use shclog.Prelude.{
  ℕ, zero, suc, ◌+◌, ◌-◌, ◌%◌, ◌^◌, bit_and, Bool, true, false, not, ◌||◌, leb, ltb, ◌==◌,
  if◌then◌else◌, Option, none, some, List, [], ◌∷◌, set, get_or, replicate,
}

-- `usize` arithmetic wraps.
abbrev pub usize_limit : ℕ
usize_limit = 2 ^ 64

abbrev pub add_usize : ℕ → ℕ → ℕ
add_usize a b = (a + b) % usize_limit

abbrev pub sub_usize : ℕ → ℕ → ℕ
sub_usize a b = (a + usize_limit - b) % usize_limit

pub record Queue : Type 0 where
  pub count : ℕ
  pub head : ℕ
  pub buffer : List (Option ℕ)
  pub tail : ℕ
  pub buf_mask : ℕ
  pub max : ℕ

pub data CreateError : Type 0 where
  invalid_capacity allocation_failed : CreateError

pub data Created : Type 0 where
  queue : Queue → Created
  refused : CreateError → Created

abbrev pub empty_queue : ℕ → Queue
empty_queue capacity = record {
  count = 0;
  head = 0;
  buffer = replicate capacity none;
  tail = 0;
  buf_mask = capacity - 1;
  max = capacity;
}

-- The two flags say whether the allocations of the buffer and of the queue succeed.
unfoldable pub create : Bool → Bool → ℕ → Created
create buf_allocated queue_allocated capacity =
    if ltb capacity 2 || not (bit_and capacity (capacity - 1) == 0)
    then refused invalid_capacity
    else if not buf_allocated
    then refused allocation_failed
    else if not queue_allocated
    then refused allocation_failed
    else queue (empty_queue capacity)

-- `buffer[h & buf_mask]`
abbrev pub slot_of : Queue → ℕ → ℕ
slot_of q h = bit_and h q.buf_mask

abbrev pub store : Queue → ℕ → ℕ → Queue
store q h v = record q { buffer = set q.buffer (slot_of q h) (some v) }

-- The Boolean is the result. On a failure the caller keeps the item.
unfoldable pub enqueue : Queue → Option ℕ → Queue × Bool
enqueue q none = (q, false)
enqueue q (some v) =
    if leb q.max q.count
    then (q, false)
    else (let cur_count = q.count in
        let claimed = record q { count = add_usize q.count 1 } in
        if leb q.max cur_count
        then (record claimed { count = sub_usize claimed.count 1 }, false)
        else (let h = claimed.head in
            (store (record claimed { head = add_usize claimed.head 1 }) h v, true)))

-- What `exchange(nullptr)` at the tail found; a null pointer leaves the queue as it is.
unfoldable pub take_item : Queue → Option ℕ → Queue × Option ℕ
take_item q none = (q, none)
take_item q (some v) = (
  record q {
    buffer = set q.buffer q.tail none;
    tail = bit_and (add_usize q.tail 1) q.buf_mask;
    count = sub_usize q.count 1;
  },
  some v,
)

unfoldable pub dequeue : Queue → Queue × Option ℕ
unfolding take_item
dequeue q = take_item q (get_or q.buffer q.tail none)

-- The destructor's loop, `while (auto item = dequeue())`, with the items in the order in which it
-- deletes them; `none` stands for rounds left over when the fuel is gone.
unfoldable pub drain : ℕ → Queue → Option (List ℕ)
drain zero q = none
drain (suc fuel) q =
    let (q', item) = dequeue q in
    elim item [ none ↦ some [] | some v ↦ Option.map (λ vs. v ∷ vs) (drain fuel q') ]

pub size : Queue → ℕ
size q = q.count

pub capacity : Queue → ℕ
capacity q = q.max

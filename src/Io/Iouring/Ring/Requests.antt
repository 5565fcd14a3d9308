-- ===== src/Io/Iouring/Ring/Requests.antt =====
-- The entries that `push_write`, `push_writev` and `push_read` fill in.
use shclog.Prelude.{ℕ, ◌%◌, ◌^◌, Bool, ltb, if◌then◌else◌}
use shclog.Prelude.Int.{ℤ}
use shclog.Io.Exec.{Exec, returns, aborts, ◌>>=◌}
use shclog.Io.Iouring.Ring.{
  Opcode, write_fixed, write, writev_fixed, writev, read_fixed, read, Sqe, no_request, EventedIo,
  PushResult, Kernel, push,
}

-- `int_cast` to an unsigned type of `limit` values (include/shclog/cast.hpp): its `assert` aborts a
-- debug build, and a release build truncates.
unfoldable pub int_cast : Bool → ℕ → ℕ → Exec ℕ
int_cast debug limit v =
    if ltb v limit then returns v else if debug then aborts else returns (v % limit)

-- The arguments of a push; `addr` and `size` are those of the span.
pub record Request : Type 0 where
  pub fd : ℤ
  pub addr : ℕ
  pub size : ℕ
  pub offset : ℕ
  pub flags : ℕ
  pub rw_flags : ℕ
  pub fixed_buffers : Bool
  pub buf_idx : ℕ

abbrev pub filled : Opcode → Request → ℕ → Sqe
filled opcode r len = record no_request {
  opcode = opcode;
  fd = r.fd;
  addr = r.addr;
  len = len;
  off = r.offset;
  flags = r.flags;
}

-- `push_write` sets the buffer index of a fixed buffer only.
unfoldable pub write_entry : Bool → Request → Exec Sqe
unfolding int_cast
write_entry debug r = do
  len ← int_cast debug (2 ^ 32) r.size
  index ← if r.fixed_buffers then int_cast debug (2 ^ 16) r.buf_idx else returns 0
  returns (record (filled (if r.fixed_buffers then write_fixed else write) r len) {
    buf_index = index;
    rw_flags = r.rw_flags;
  })

-- `push_writev` and `push_read` set it always, and leave `rw_flags` alone.
unfoldable pub writev_entry : Bool → Request → Exec Sqe
unfolding int_cast
writev_entry debug r = do
  len ← int_cast debug (2 ^ 32) r.size
  index ← int_cast debug (2 ^ 16) r.buf_idx
  returns (record (filled (if r.fixed_buffers then writev_fixed else writev) r len) {
    buf_index = index;
  })

unfoldable pub read_entry : Bool → Request → Exec Sqe
unfolding int_cast
read_entry debug r = do
  len ← int_cast debug (2 ^ 32) r.size
  index ← int_cast debug (2 ^ 16) r.buf_idx
  returns
      (record (filled (if r.fixed_buffers then read_fixed else read) r len) { buf_index = index })

module _ (kernel : Kernel) (debug : Bool) where
  unfoldable pub push_write : EventedIo → Request → Exec (EventedIo × PushResult)
  push_write e r = push kernel debug e (write_entry debug r)

  unfoldable pub push_writev : EventedIo → Request → Exec (EventedIo × PushResult)
  push_writev e r = push kernel debug e (writev_entry debug r)

  unfoldable pub push_read : EventedIo → Request → Exec (EventedIo × PushResult)
  push_read e r = push kernel debug e (read_entry debug r)

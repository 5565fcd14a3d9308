-- ===== src/Lib.antt =====
-- shclog: the queues, the io_uring rings, the system call wrappers, the arithmetic helpers, the
-- unit reports and the samples of the library, and what is proved of them.
--
-- The program is a header library. Producers hand items to a consumer through a lock-free queue
-- (include/shclog/mpsc_queue.hpp); the consumer writes through an io_uring
-- (include/shclog/io/iouring.hpp), whose system calls, like those for files and maps, are wrapped
-- by functions that turn an errno into an error value (include/shclog/io, src/shclog/io).
--
-- Files. Mpsc/Bounded.antt is MPSCQueue with its calls as sequential functions (create, enqueue,
-- dequeue, the destructor as drain); Mpsc/Spec.antt is the bounded list that it refines;
-- Mpsc/Bounded/Threads.antt makes each atomic access of enqueue and dequeue a step of its own and
-- interleaves any number of producers with the consumer. Mpsc/Slotted.antt is MPSCQSlotted and
-- Mpsc/Linked.antt UnboundedLinkedMPSCQ, both as interleaved accesses. Io/Errno.antt and
-- Io/Syscall.antt are io/syscall.hpp and io/syscall.cpp; Io/File.antt, Io/Mmap.antt and
-- Io/Process.antt the wrappers of io/file.cpp, io/mmap.hpp, io/process.cpp and io/cpu.cpp;
-- Io/UniqueFd.antt is unique_fd of io/file.hpp. Io/Iouring/Calls.antt is io/iouring.cpp;
-- Io/Iouring/Ring.antt has the state of EventedIo with next_sq_slot, submit and pop_one,
-- Io/Iouring/Ring/Requests.antt the entries that push_write, push_writev and push_read fill in,
-- Io/Iouring/Completions.antt the error tables of pop_write, pop_writev and pop_read, and
-- Io/Iouring/Ring/Pops.antt those pops as a whole. Io/Iouring/Setup.antt is the life of an
-- EventedIo: create, the registrations, the destructor, over the resources and the answers of the
-- system of Io/Iouring/Resources.antt. Io/CpuList.antt is list_cpu_cores of io/cpu.hpp, which
-- reads at most 64 bytes of a file, over
-- Decimal.antt, the documented behaviour of std::to_chars and std::from_chars. Math.antt is
-- math.hpp. Bench/Report.antt is UnitRepr of bench/report.hpp, Bench/TimeScale.antt and
-- Bench/ByteScale.antt the two scales, Bench/Sample.antt the Sample of bench/sample.hpp and
-- Bench/Sample/Average.antt its avg in a wider integer with the std::reduce of
-- Bench/Sample/Reduce.antt, whose grouping of the additions is a parameter, documented to add each
-- sample once, Bench/Sample/Signed.antt its push at a
-- signed type, Bench/Sample/Percentile.antt its percentile. Bench/Report/Write.antt is
-- UnitRepr::write with write_number of fmt.hpp, and Bench/Report/Signed.antt is UnitRepr at a
-- signed integer type. Cast.antt is int_cast of cast.hpp between integer types with the casts of
-- pointers, Cast/Floating.antt its int_cast of a floating-point value. Io/Affinity.antt is
-- set_cpu_afinity, Io/Tmpfile.antt is tmpfile of file.cpp, and Lang.antt is unwrap of lang.hpp.
-- Collections/Slice.antt is Slice of collections/slice.hpp and Bench/Time.antt the Time of
-- bench/time.hpp. Prelude.antt has the shared lists, tests, bit masks and counters.
--
-- How the state corresponds. An item or a pointer is a number, a null pointer is `none`. A node of
-- the linked queue is a number that also stands for its item, and the stub is 0. Machine words are
-- natural numbers with the wrap-around written out. What the kernel answers (the return value and
-- errno) is an argument of each wrapper, and what it does to the shared rings inside io_uring_enter
-- is a parameter, Kernel; for create and the destructor the parameter is System, whose answers
-- depend on what was done before. `debug` tells a debug build, where a failed assert and
-- debug_e_errno abort, from a release build. A switch is a table of labels and results. The doubles
-- of a percentile and the sort are parameters, and a sorted answer is documented of the sort.
--
-- Bounds and fuel. A capacity is 2^k: k is at most 63 for the queue and at most 31 for the rings,
-- which is all that a usize and a u32 can hold. The queue's threads are fewer than 2^63, so that
-- the counter with its excess claims does not wrap. The slotted queue has from two cells on, and
-- fewer than 2^63 - 2^k tickets, where its signed difference does not overflow. The squaring loop
-- of ipow has the exponent as fuel, of which a round uses at least half; the destructor's loop
-- needs one round more than items; the loop of biggest_unit_fit takes a round for each larger unit
-- at most; a round of the CPU list parser takes a byte at least, and its fuel is the length of the
-- content.
--
-- Not modelled. Memory orderings: the accesses of all threads form one order. The floating average
-- of a Sample, floating-point values of unit reports, of write_number and of the checked
-- arithmetic, and float_cast, since what they give is settled by rounding. Type aliases, build
-- constants, the pause loop and tests have no model.
pub mod Prelude
pub mod Cast
pub mod Math
pub mod Lang
pub mod Collections
pub mod Mpsc
pub mod Bench
pub mod Decimal
pub mod Io

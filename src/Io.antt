-- ===== src/Io.antt =====
-- include/shclog/io and src/shclog/io: the wrappers of system calls.
pub mod Exec
pub mod Errno
pub mod Syscall
pub mod File
pub mod Tmpfile
pub mod UniqueFd
pub mod Mmap
pub mod Process
pub mod Affinity
pub mod CpuList
pub mod Iouring
pub mod Outcomes
mod Examples

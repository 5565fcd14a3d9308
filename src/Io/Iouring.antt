-- ===== src/Io/Iouring.antt =====
-- include/shclog/io/iouring.hpp and src/shclog/io/iouring.cpp.
pub mod Calls
pub mod Completions
pub mod Resources
pub mod Ring
pub mod Setup

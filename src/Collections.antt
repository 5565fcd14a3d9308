-- ===== src/Collections.antt =====
-- include/shclog/collections.
pub mod Slice

-- ===== src/Bench.antt =====
-- include/shclog/bench: the samples of a benchmark, and how a value is brought to a readable unit.
pub mod Report
pub mod Sample
pub mod Time
pub mod TimeScale
pub mod ByteScale
mod Examples

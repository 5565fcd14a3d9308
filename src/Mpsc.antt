-- ===== src/Mpsc.antt =====
-- include/shclog/mpsc_queue.hpp: the multi-producer, single-consumer queues.
pub mod Spec
pub mod Bounded
pub mod Slotted
pub mod Linked
mod Examples

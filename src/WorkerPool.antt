-- ===== src/WorkerPool.antt =====
-- The Go package workerpool.
pub mod Pool
pub mod Steps
pub mod Balance
pub mod Progress
pub mod Bound
pub mod Idle
pub mod Resizes
pub mod Default
mod Tests

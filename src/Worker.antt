-- ===== src/Worker.antt =====
-- The worker: src/worker.
pub mod Disk
pub mod Action
pub mod Ops
pub mod Pipeline
pub mod Executor
pub mod Process
pub mod Samples
pub mod Partition
pub mod PartitionStore
mod Tests

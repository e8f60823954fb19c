-- ===== src/Master.antt =====
-- The master: src/master/mod.rs. A handler takes the whole state and returns it with its result.
-- Handlers run one at a time here: each takes the locks that it needs, and what other threads do
-- between two locks of one handler is not modelled.
pub mod State
pub mod Scheduling
pub mod Submission
pub mod Completion
pub mod Recovery
pub mod Workers
pub mod Queries
pub mod Events
pub mod Invariant
pub mod Counting
pub mod Assignment
pub mod Advancing
pub mod Draining
pub mod Keys
pub mod Durability
pub mod Acceptance
pub mod Survival
pub mod Restart
pub mod Restoring
pub mod Requeueing
mod Tests

-- ===== src/Lib.antt =====
-- A model of the distributed processing engine: a master that takes jobs (dataflow graphs), cuts them
-- into one task for each partition, hands the tasks to workers and keeps its state in SQLite. Rust
-- structs are records, enums are data types, a handler is a function from the whole state to its
-- result and the new state. Paths are from the repository's root.
--
-- - Base: Boolean tests, lists, association lists for `HashMap`, errors (Outcome), machine words,
--   decimal text. A `usize` has 64 bits; the sums that the handlers make wrap at 2 ^ 64.
-- - Spec, Types, Config: the data of src/common/dag.rs, src/common/types.rs, src/common/config.rs.
-- - Dag: `validate`, `to_stages`, `materialize_tasks`, `inject_local_shuffle`, `ordered_nodes` and
--   `read_source` of src/common/dag.rs. The order in which a `HashMap` gives its entries is a
--   parameter, which differs from map to map (Orders). The queue loop of `ordered_nodes` has as many rounds as there are counters: a node
--   enters the queue once, when its counter reaches zero. Counters and Queue say what the loop keeps,
--   Termination is about its rounds, Sorting about the order it makes, and Membership about the nodes
--   that `ordered_nodes` returns.
-- - Registry, Scheduler: src/master/registry.rs and src/master/scheduler.rs. The clock is an argument;
--   the `f32` operations are a parameter (Base.Floats).
-- - StateStore: src/common/state_store.rs, one map for each table. SQLite is not part of the
--   repository: a list of faults says which of the coming transactions and queries fail, and with
--   what error.
-- - Master: src/master/mod.rs. State has its fields; Submission, Scheduling, Completion, Workers,
--   Recovery and Queries have its methods; Events puts them together as runs. What a handler posts to
--   workers is collected in the state; a background task that it spawns is a counter, and an event of
--   its own runs it. Each event of a run has iteration orders of its own, and within a handler each
--   call that iterates a map has one of them. Invariant carries a fact about the jobs through all handlers; Durability,
--   Acceptance, Survival, Restart, Restoring and Requeueing relate the jobs in memory to the rows of
--   the store; Assignment, Advancing and Draining are about the scheduling of tasks, Counting and
--   Completion about reports.
-- - Http: the handlers of src/http/handlers.rs with their status codes, and the routes of
--   src/http/router.rs. `Uuid::parse_str`, the files that are served and what axum takes as a header
--   value are parameters.
-- - Http.Request: the parser of raw requests, src/http/request.rs, on the texts of Base.Text.
-- - Worker.Disk, Worker.Action: the files of a worker, whose operations may fail as a list of faults
--   says, and code that works on them and may fail.
-- - Worker.Partition, Worker.PartitionStore: src/worker/partition.rs. `serde_json` is a parameter:
--   IsJson says how a value is printed on a line. That a value is read back as it was written is no
--   law, since floats may change: Partition.Lines.Exact says it of one value, and Pipeline.Meaning's
--   ReadBack of the records on the way through a chain of operators.
-- - Worker.Ops: src/worker/ops, one module for each operator: Read, MapOp, Filter, FlatMap, Reduce,
--   Join, Shuffle. Value has what the operators use of `serde_json` (Serde, with laws in IsSerde) and
--   of the standard library (Std: numbers in texts, f64, hashes, paths); Data is a partition on its way
--   between operators, and Data.Carried says which records it carries while the disk does not fail. The
--   recursion of MapOp into a record has one level more than the record nests, and any more levels
--   give the same (MapOp.Nesting).
-- - Worker.Pipeline, Worker.Executor: src/worker/executor.rs, the operators of a task one after
--   another, the files that are written, and the loop that tries a task again. The loop has as many
--   rounds as the retry limit and one more: an attempt past the limit is the last one. What happens to
--   an attempt beside the code (a panic, the loss of its thread) is an argument, with the disk that it
--   leaves. Pipeline.Meaning says what operators make of the records of one partition, and
--   Executor.Computes what a task leaves on the disk.
-- - Worker.Process: src/worker/mod.rs and src/worker/monitor.rs, the choice of a port, registration
--   and heartbeats.
-- - Samples and the modules named Tests: concrete inputs.
--
-- A handler is taken as one step: what another handler does between two locks of it is not modelled.
-- Not modelled: sockets, logging, the command line client, reading the environment, start-up,
-- benchmarks and the support of the tests. Two attempts of one worker that work on the disk at the
-- same time are taken one after the other.
pub mod Base
pub mod Spec
pub mod Types
pub mod Config
pub mod Dag
pub mod Registry
pub mod Scheduler
pub mod StateStore
pub mod Master
pub mod Http
pub mod Worker
pub mod Samples

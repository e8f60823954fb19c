-- ===== src/Worker/Executor.antt =====
-- The executor of a worker: src/worker/executor.rs.
pub mod Reports
pub mod Retries
pub mod Computes
mod Tests
use Prim.Native.String.{◌++◌ as append}
use distributed_processing_e.Base.{
  ℕ, zero, suc, ◌+◌, ◌&&◌, max, leb, length, String, Bool, true, false, Option, none, some, List,
  [], ◌∷◌, if◌then◌else◌,
}
use distributed_processing_e.Base.Floats.{f32_zero}
use distributed_processing_e.Base.Outcome.{Outcome, ok, err, map_all}
use distributed_processing_e.Base.Words.{add_usize, saturating_sub}
use distributed_processing_e.Config.{Config}
use distributed_processing_e.Types.{
  WorkerId, TaskId, Task, TaskResult, TaskStatus, WorkerMetrics, PartitionInfo, StageTrace,
}
use distributed_processing_e.Worker.Disk.{Disk}
use distributed_processing_e.Worker.Ops.{Operator, from_type}
use distributed_processing_e.Worker.Ops.Data.{PartitionData}
use distributed_processing_e.Worker.PartitionStore
use distributed_processing_e.Worker.PartitionStore.{PartitionStore, partition_path}
use distributed_processing_e.Worker.Pipeline.{
  Engine, failed_result, operator_ids, incoming_edges, operator_defs, final_stage_id,
  reported_operator, operator_name, total_records, pipeline, write_partitions, with_final,
  last_outputs,
}

pub record Executor : Type 0 where
  pub config : Config
  pub worker_id : WorkerId
  pub master_addr : String
  pub store : PartitionStore
  pub permits : ℕ
  pub tasks_completed : ℕ
  pub tasks_failed : ℕ
  pub records_processed : ℕ
  pub active_task : Option TaskId

abbrev pub new_executor : PartitionStore → Config → WorkerId → String → Executor
new_executor store config worker_id master_addr = record {
  config = config;
  worker_id = worker_id;
  master_addr = master_addr;
  store = store;
  permits = max config.max_parallel_tasks 1;
  tasks_completed = 0;
  tasks_failed = 0;
  records_processed = 0;
  active_task = none;
}

abbrev pub snapshot_metrics : Executor → WorkerMetrics
snapshot_metrics e = record {
  tasks_in_flight = saturating_sub (max e.config.max_parallel_tasks 1) e.permits;
  cpu_pct = f32_zero;
  memory_mb = 0;
  tasks_completed = e.tasks_completed;
  tasks_failed = e.tasks_failed;
  records_processed = e.records_processed;
  current_task = e.active_task;
}

-- What happens to one attempt beside the code: nothing, a panic that leaves the disk as it is
-- given, or the loss of the thread.
pub data Mishap : Type 0 where
  fine : Mishap
  panics : Disk → Mishap
  lost : Disk → Mishap

pub record Attempt : Type 0 where
  pub mishap : Mishap
  pub duration_ms : ℕ

abbrev pub is_failed : TaskStatus → Bool
is_failed (TaskStatus.failed msg) = true
is_failed _ = false

-- The counters after an attempt.
abbrev pub counted : TaskResult → TaskStatus → Executor → Executor
counted result TaskStatus.completed e = record e {
  tasks_completed = add_usize e.tasks_completed 1;
  records_processed = add_usize e.records_processed result.metrics.processed_records;
}
counted result (TaskStatus.failed msg) e = record e { tasks_failed = add_usize e.tasks_failed 1 }
counted result _ e = e

abbrev pub may_retry : Executor → TaskResult → ℕ → Bool
may_retry e result attempt = is_failed result.status && leb attempt e.config.task_retry_limit

abbrev pub release : Option (TaskResult × Executor × Disk) → Option (TaskResult × Executor × Disk)
release none = none
release (some (result, e, d)) = some (result, record e { permits = e.permits + 1 }, d)

module _ {V M N : Type 0} (eng : Engine V M N) where
  module _ (task : Task) (store : PartitionStore) (config : Config) where
    abbrev pub total_partitions : ℕ
    total_partitions = max task.total_partitions 1

    abbrev pub spill : String
    spill = PartitionStore.spill_path store task.job_id (final_stage_id task) task.partition

    abbrev pub path : String
    path = partition_path store task.job_id (final_stage_id task) task.partition

    abbrev pub failure : String → String → ℕ → TaskResult
    failure operator message duration_ms =
        failed_result task.task_id task.job_id operator (reported_operator task)
          (final_stage_id task) task.partition message path duration_ms

    abbrev completion : ℕ → ℕ → List StageTrace → ℕ → TaskResult
    completion processed size_bytes stages duration_ms = record {
      task_id = task.task_id;
      job_id = task.job_id;
      operator = reported_operator task;
      stage_id = final_stage_id task;
      partition = task.partition;
      result_location = record { path = path; size_bytes = size_bytes };
      metrics = record {
        processed_records = processed;
        duration_ms = duration_ms;
        cpu_time_ms = duration_ms;
        wall_time_ms = duration_ms;
      };
      status = TaskStatus.completed;
      trace = some (record { job_id = store.uuid_text task.job_id; stages = stages });
      final_partitions = last_outputs stages;
    }

    -- The final partitions are written.
    abbrev pub conclude_write :
        String
        → ℕ
        → ℕ
        → List StageTrace
        → Outcome (ℕ × List PartitionInfo) × Disk
        → TaskResult × Disk
    conclude_write name duration_ms processed stages (err e, d) = (
      failure name (append "operator " (append name (append " failed writing output: " e)))
          duration_ms,
      d,
    )
    conclude_write name duration_ms processed stages (ok (size_bytes, infos), d) =
        (completion processed size_bytes (with_final infos stages) duration_ms, d)

    abbrev pub conclude :
        String → ℕ → Outcome (List (PartitionData V) × List StageTrace) × Disk → TaskResult × Disk
    conclude name duration_ms (err e, d) =
        (failure name (append "operator " (append name (append " failed: " e))) duration_ms, d)
    conclude name duration_ms (ok (partitions, stages), d) =
        conclude_write name duration_ms (total_records eng partitions) stages (
          write_partitions eng store task.job_id (final_stage_id task) task.partition partitions 0
            d)

    abbrev pub run_pipeline :
        List Operator → Disk → Outcome (List (PartitionData V) × List StageTrace) × Disk
    run_pipeline =
        pipeline eng (operator_ids task) (incoming_edges task) task.partition
          config.partition_cache_limit_bytes spill

    abbrev pub run_attempt : List Operator → Attempt → Mishap → Disk → TaskResult × Disk
    run_attempt operators attempt (Mishap.panics d') d = (
      failure (operator_name operators)
          (append "operator " (append (operator_name operators) " panicked")) attempt.duration_ms,
      d',
    )
    run_attempt operators attempt _ d =
        conclude (operator_name operators) attempt.duration_ms (run_pipeline operators d)

    abbrev pub run_built : Attempt → Outcome (List Operator) → Disk → TaskResult × Disk
    run_built attempt (err e) d = (
      failure (eng.debug_operator (reported_operator task))
          (append "failed to build operator pipeline: " e) 0,
      d,
    )
    run_built attempt (ok operators) d = run_attempt operators attempt attempt.mishap d

    unfoldable pub execute_sync : Attempt → Disk → TaskResult × Disk
    unfolding map_all from_type pipeline write_partitions failed_result partition_path
        PartitionStore.spill_path
    execute_sync attempt d =
        run_built attempt
          (map_all
            (λ op.
              from_type op task.partition total_partitions config.partition_cache_limit_bytes spill)
            (operator_defs task))
          d

    -- The stage that a lost attempt reports.
    abbrev stage_or_given : ℕ
    stage_or_given = elim task.operators [
      | [] ↦ task.stage_id
      | op ∷ ops ↦ saturating_sub (length (op ∷ ops)) 1
    ]

    abbrev pub once : Attempt → Mishap → Disk → TaskResult × Disk
    once attempt (Mishap.lost d') d = (
      failed_result task.task_id task.job_id (eng.debug_operator (reported_operator task))
          (reported_operator task) stage_or_given task.partition "task panicked while joining"
          (partition_path store task.job_id stage_or_given task.partition) 0,
      d',
    )
    once attempt _ d = execute_sync attempt d

  unfoldable pub execute_once : Executor → Task → Attempt → Disk → TaskResult × Disk
  unfolding execute_sync
  execute_once e task attempt d = once task e.store e.config attempt attempt.mishap d

  -- One round of the loop: the task is active, and the counters are updated.
  abbrev pub round : Executor → Task → Attempt → Disk → TaskResult × Executor × Disk
  round e task event d =
      let (result, d') = execute_once (record e { active_task = some task.task_id }) task event d in
      (result, counted result result.status (record e { active_task = some task.task_id }), d')

  -- The loop, with the number of the last attempt; `events` says what happens to each attempt.
  unfoldable pub attempts :
      (ℕ → Attempt) → ℕ → ℕ → Task → Executor × Disk → Option (TaskResult × Executor × Disk)
  unfolding execute_once
  attempts events zero attempt task (e, d) = none
  attempts events (suc fuel) attempt task (e, d) =
      let (result, e', d') = round e task (events (attempt + 1)) d in
      let again = attempts events fuel (attempt + 1) task (e', d') in
      if may_retry e' result (attempt + 1)
      then again
      else some (result, record e' { active_task = none }, d')

  -- A permit is held while the task runs.
  unfoldable pub execute_task :
      (ℕ → Attempt) → Task → Executor × Disk → Option (TaskResult × Executor × Disk)
  unfolding attempts
  execute_task events task (e, d) = release (
      attempts events (e.config.task_retry_limit + 1) 0 task
        (record e { permits = saturating_sub e.permits 1 }, d))

  -- The result is posted to the master; where that fails it is dropped.
  unfoldable pub execute_and_report :
      (ℕ → Attempt)
      → Task
      → Executor × Disk
      → Option (TaskResult × (String × TaskResult) × Executor × Disk)
  unfolding execute_task
  execute_and_report events task (e, d) = elim (execute_task events task (e, d)) [
    | none ↦ none
    | some (result, e', d') ↦
        some (
          result,
          (append "http://" (append e.master_addr "/api/v1/tasks/complete"), result),
          e',
          d',
        )
  ]

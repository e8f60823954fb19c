-- ===== src/Worker/Executor/Reports.antt =====
-- What every report of `execute_once` of src/worker/executor.rs says.
use distributed_processing_e.Base.{ℕ, ◌≡◌, ◌⊎◌, inl, inr, refl, String, List}
use distributed_processing_e.Base.Outcome.{Outcome, ok, err}
use distributed_processing_e.Config.{Config}
use distributed_processing_e.Types.{Task, TaskResult, TaskStatus, PartitionInfo, StageTrace}
use distributed_processing_e.Worker.Disk.{Disk}
use distributed_processing_e.Worker.Executor.{
  Executor, Attempt, Mishap, failure, conclude_write, conclude, run_attempt, run_built,
  execute_sync, once, execute_once,
}
use distributed_processing_e.Worker.Ops.{Operator}
use distributed_processing_e.Worker.Ops.Data.{PartitionData}
use distributed_processing_e.Worker.PartitionStore.{PartitionStore, partition_path}
use distributed_processing_e.Worker.Pipeline.{
  Engine, failed_result, reported_operator, total_records, write_partitions, final_stage_id,
}

-- The report is about the task and its partition's file, and tells success or failure.
pub record IsReport (store : PartitionStore) (task : Task) (r : TaskResult) : Type 0 where
  pub task_id : r.task_id ≡ task.task_id
  pub job_id : r.job_id ≡ task.job_id
  pub partition : r.partition ≡ task.partition
  pub operator : r.operator ≡ reported_operator task
  pub path : r.result_location.path ≡ partition_path store task.job_id r.stage_id task.partition
  pub settled :
      (r.status ≡ TaskStatus.completed) ⊎ ((m : String) × (r.status ≡ TaskStatus.failed m))

module _ {V M N : Type 0} (eng : Engine V M N) (task : Task) (store : PartitionStore)
    (config : Config) where
  failure-IsReport :
      (operator message : String) (ms : ℕ)
      → IsReport store task (failure eng task store config operator message ms)
  unfolding failed_result
  failure-IsReport operator message ms = record {
    task_id = refl;
    job_id = refl;
    partition = refl;
    operator = refl;
    path = refl;
    settled = inr (_, refl);
  }

  conclude_write-IsReport :
      (name : String) (ms processed : ℕ) (stages : List StageTrace)
      (w : Outcome (ℕ × List PartitionInfo) × Disk)
      → IsReport store task (conclude_write eng task store config name ms processed stages w).0
  conclude_write-IsReport name ms processed stages (err e, d) = failure-IsReport name _ ms
  conclude_write-IsReport name ms processed stages (ok (size, infos), d) = record {
    task_id = refl;
    job_id = refl;
    partition = refl;
    operator = refl;
    path = refl;
    settled = inl refl;
  }

  conclude-IsReport :
      (name : String) (ms : ℕ) (run : Outcome (List (PartitionData V) × List StageTrace) × Disk)
      → IsReport store task (conclude eng task store config name ms run).0
  conclude-IsReport name ms (err e, d) = failure-IsReport name _ ms
  conclude-IsReport name ms (ok (partitions, stages), d) =
      conclude_write-IsReport name ms (total_records eng partitions) stages
        (write_partitions eng store task.job_id (final_stage_id task) task.partition partitions 0 d)

  run_attempt-IsReport :
      (operators : List Operator) (attempt : Attempt) (mishap : Mishap) (d : Disk)
      → IsReport store task (run_attempt eng task store config operators attempt mishap d).0
  run_attempt-IsReport operators attempt (Mishap.panics d') d =
      failure-IsReport _ _ attempt.duration_ms
  run_attempt-IsReport operators attempt Mishap.fine d = conclude-IsReport _ attempt.duration_ms _
  run_attempt-IsReport operators attempt (Mishap.lost d') d =
      conclude-IsReport _ attempt.duration_ms _

  run_built-IsReport :
      (attempt : Attempt) (built : Outcome (List Operator)) (d : Disk)
      → IsReport store task (run_built eng task store config attempt built d).0
  run_built-IsReport attempt (err e) d = failure-IsReport _ _ 0
  run_built-IsReport attempt (ok operators) d =
      run_attempt-IsReport operators attempt attempt.mishap d

  once-IsReport :
      (attempt : Attempt) (mishap : Mishap) (d : Disk)
      → IsReport store task (once eng task store config attempt mishap d).0
  unfolding execute_sync failed_result
  once-IsReport attempt (Mishap.lost d') d = record {
    task_id = refl;
    job_id = refl;
    partition = refl;
    operator = refl;
    path = refl;
    settled = inr (_, refl);
  }
  once-IsReport attempt Mishap.fine d = run_built-IsReport attempt _ d
  once-IsReport attempt (Mishap.panics d') d = run_built-IsReport attempt _ d

-- Whatever happens to an attempt, its report names the task, its partition and the file of that
-- partition, and its status is completed or failed.
pub execute_once-IsReport :
    {V M N : Type 0} (eng : Engine V M N) (e : Executor) (task : Task) (attempt : Attempt)
    (d : Disk)
    → IsReport e.store task (execute_once eng e task attempt d).0
unfolding execute_once
execute_once-IsReport eng e task attempt d =
    once-IsReport eng task e.store e.config attempt attempt.mishap d

-- ===== src/Master/Recovery.antt =====
-- `Master::new` of src/master/mod.rs: the jobs and tasks of an earlier run are read back.
use distributed_processing_e.Base.{
  Bool, true, false, Option, none, some, List, [], ◌∷◌, ◌++◌, if◌then◌else◌,
}
use distributed_processing_e.Base.Eq.{nat_eq}
use distributed_processing_e.Base.Map.{HashMap, get, insert, modify}
use distributed_processing_e.Base.Outcome.{Outcome, ok, err}
use distributed_processing_e.Config.{Config}
use distributed_processing_e.Master.State.{JobState, Master, is_completed}
use distributed_processing_e.Registry
use distributed_processing_e.Scheduler.{default_scheduler}
use distributed_processing_e.StateStore.{
  StateStore, JobRow, TaskRow, load_all_jobs, load_all_tasks, persist_task_status,
}
use distributed_processing_e.Types.{
  JobId, TaskId, JobStatus, TaskStatus, TaskResult, default_job_metrics,
}

abbrev pub restored_job : JobRow → JobState
restored_job row = record {
  dag = row.dag;
  status = row.status;
  tasks = [];
  results = [];
  metrics = default_job_metrics;
  error = none;
}

unfoldable pub restore_jobs :
    List (JobId × JobRow) → HashMap JobId JobState → HashMap JobId JobState
restore_jobs [] jobs = jobs
restore_jobs ((job_id, row) ∷ rows) jobs = restore_jobs rows (insert jobs job_id (restored_job row))

-- A task that was in flight is queued again.
abbrev pub normalized : TaskStatus → TaskStatus
normalized (TaskStatus.assigned w) = TaskStatus.queued
normalized (TaskStatus.running w) = TaskStatus.queued
normalized status = status

abbrev pub in_flight : TaskStatus → Bool
in_flight (TaskStatus.assigned w) = true
in_flight (TaskStatus.running w) = true
in_flight status = false

abbrev pub finished_result : Option TaskResult → List TaskResult
finished_result none = []
finished_result (some r) = if is_completed r.status then r ∷ [] else []

abbrev pub add_task : TaskId → TaskRow → JobState → JobState
add_task task_id row job = record job {
  tasks = insert job.tasks task_id (normalized row.status);
  results = job.results ++ finished_result row.result;
}

-- A task of an unknown job gets a placeholder job.
abbrev pub placeholder : TaskId → TaskRow → JobState
placeholder task_id row = record {
  dag = record { nodes = []; edges = []; partitions = 0 };
  status = JobStatus.pending;
  tasks = insert [] task_id (normalized row.status);
  results = finished_result row.result;
  metrics = default_job_metrics;
  error = none;
}

unfoldable pub restore_task : TaskId × TaskRow → HashMap JobId JobState → HashMap JobId JobState
restore_task (task_id, row) jobs = elim (get jobs row.job_id) [
  | some job ↦ modify jobs row.job_id (add_task task_id row)
  | none ↦ insert jobs row.job_id (placeholder task_id row)
]

unfoldable pub restore_tasks :
    List (TaskId × TaskRow) → HashMap JobId JobState → HashMap JobId JobState
restore_tasks [] jobs = jobs
restore_tasks (entry ∷ rows) jobs = restore_tasks rows (restore_task entry jobs)

-- `tasks_to_requeue`
unfoldable pub to_requeue : List (TaskId × TaskRow) → List (TaskId × JobId)
to_requeue [] = []
to_requeue ((task_id, row) ∷ rows) =
    let rest = to_requeue rows in
    if in_flight row.status then (task_id, row.job_id) ∷ rest else rest

unfoldable pub requeue_all : List (TaskId × JobId) → StateStore → StateStore
requeue_all [] s = s
requeue_all ((task_id, job_id) ∷ rest) s =
    requeue_all rest (persist_task_status task_id job_id TaskStatus.queued s).1

-- A query that fails is skipped: the master starts with what the other one gave.
abbrev pub rows_or_none {ℓ} : {A : Type ℓ} → Outcome (List A) → List A
rows_or_none (ok rows) = rows
rows_or_none (err e) = []

unfoldable pub new : Config → StateStore → Master
new config store =
    let (saved_jobs, store₁) = load_all_jobs store in
    let (saved_tasks, store₂) = load_all_tasks store₁ in
    let jobs = restore_jobs (rows_or_none saved_jobs) [] in
    record {
      config = config;
      registry = Registry.empty;
      scheduler = default_scheduler;
      jobs = restore_tasks (rows_or_none saved_tasks) jobs;
      state_store = requeue_all (to_requeue (rows_or_none saved_tasks)) store₂;
      sent = [];
      spawned = 0;
    }

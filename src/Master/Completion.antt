-- ===== src/Master/Completion.antt =====
-- `complete_task` of src/master/mod.rs: a worker's report on a task.
pub mod Effects
pub mod Reports
use distributed_processing_e.Base.{
  ℕ, String, Bool, Option, none, some, List, [], ◌∷◌, ◌++◌, any, not, if◌then◌else◌,
}
use distributed_processing_e.Base.Eq.{◌==◌, nat_eq}
use distributed_processing_e.Base.Floats.{f32_hundred}
use distributed_processing_e.Base.Map.{HashMap, get, insert, modify, values}
use distributed_processing_e.Base.Outcome.{Outcome, ok, err}
use distributed_processing_e.Base.Words.{add_usize, add_u128, saturating_sub}
use distributed_processing_e.Master.State.{
  Env, JobState, Master, with_store, put_job, progress_of, output_paths, is_completed,
}
use distributed_processing_e.StateStore.{
  StateStore, persist_task_result, persist_job, persist_job_status,
}
use distributed_processing_e.Types.{
  JobId, TaskId, WorkerId, JobStatus, TaskStatus, TaskResult, JobMetrics, StageMetrics, StageId,
  WorkerAggregate, succeeded, failed,
}

abbrev recount : JobMetrics → JobMetrics
recount m = record m {
  pending_tasks = saturating_sub m.total_tasks (add_usize m.completed_tasks m.failed_tasks);
}

-- The first stage with the identifier.
unfoldable pub bump_stage : StageId → ℕ → List StageMetrics → List StageMetrics
bump_stage stage_id duration [] = []
bump_stage stage_id duration (s ∷ stages) =
    if s.stage_id == stage_id
    then record s {
      tasks_completed = add_usize s.tasks_completed 1;
      duration_ms = add_u128 s.duration_ms duration;
    }
      ∷ stages
    else s ∷ bump_stage stage_id duration stages

abbrev pub worker_of : Option TaskStatus → Option WorkerId
worker_of (some (TaskStatus.assigned w)) = some w
worker_of (some (TaskStatus.running w)) = some w
worker_of _ = none

-- The aggregate of a worker changes, or a first one is appended.
unfoldable pub credit_worker :
    WorkerId
    → (WorkerAggregate → WorkerAggregate)
    → WorkerAggregate
    → List WorkerAggregate
    → List WorkerAggregate
credit_worker wid f fresh [] = fresh ∷ []
credit_worker wid f fresh (w ∷ workers) =
    if w.worker_id == wid then f w ∷ workers else w ∷ credit_worker wid f fresh workers

abbrev pub credit :
    Option WorkerId → (WorkerId → List WorkerAggregate → List WorkerAggregate) → JobState → JobState
credit none f job = job
credit (some wid) f job = record job {
  metrics = record job.metrics { workers = f wid job.metrics.workers };
}

abbrev pub credit_success : TaskResult → WorkerId → List WorkerAggregate → List WorkerAggregate
credit_success result wid =
    credit_worker wid
      (λ w. record w {
        tasks_completed = add_usize w.tasks_completed 1;
        records_processed = add_usize w.records_processed result.metrics.processed_records;
        cpu_time_ms = add_u128 w.cpu_time_ms result.metrics.cpu_time_ms;
        wall_time_ms = add_u128 w.wall_time_ms result.metrics.wall_time_ms;
      })
      (record {
        worker_id = wid;
        tasks_completed = 1;
        tasks_failed = 0;
        records_processed = result.metrics.processed_records;
        cpu_time_ms = result.metrics.cpu_time_ms;
        wall_time_ms = result.metrics.wall_time_ms;
      })

abbrev pub credit_failure : WorkerId → List WorkerAggregate → List WorkerAggregate
credit_failure wid =
    credit_worker wid (λ w. record w { tasks_failed = add_usize w.tasks_failed 1 })
      (record {
        worker_id = wid;
        tasks_completed = 0;
        tasks_failed = 1;
        records_processed = 0;
        cpu_time_ms = 0;
        wall_time_ms = 0;
      })

-- `job_state.tasks.insert(result.task_id, result.status)`, before anything else.
unfoldable pub note_status : TaskResult → JobState → JobState
note_status result job = record job { tasks = insert job.tasks result.task_id result.status }

-- The metrics and the result of a completed task, without the job's status.
unfoldable pub note_completed : TaskResult → JobState → JobState
note_completed result job =
    let counted = record job.metrics {
      completed_tasks = add_usize job.metrics.completed_tasks 1;
    } in
    let pending = recount counted in
    let staged = record pending {
      stages = bump_stage result.stage_id result.metrics.duration_ms pending.stages;
    } in
    let job' = record job { results = job.results ++ result ∷ []; metrics = staged } in
    credit (worker_of (get job'.tasks result.task_id)) (credit_success result) job'

abbrev pub unfinished : JobState → Bool
unfinished job = any (λ status. not (is_completed status)) (values job.tasks)

unfoldable pub note_failed : TaskResult → Option String → JobState → JobState
note_failed result error job =
    let counted = record job.metrics { failed_tasks = add_usize job.metrics.failed_tasks 1 } in
    let job' = record job { metrics = recount counted; status = JobStatus.failed; error = error } in
    credit (worker_of (get job'.tasks result.task_id)) credit_failure job'

-- Best effort, as all of these writes are.
unfoldable pub persist_success : JobId → JobState → StateStore → StateStore
persist_success job_id job s =
    (persist_job_status job_id JobStatus.succeeded f32_hundred job.metrics none
      (output_paths job.results) (persist_job job_id job.dag JobStatus.succeeded s).1).1

module _ (env : Env) where
  unfoldable pub persist_progress : JobId → JobState → StateStore → StateStore
  persist_progress job_id job s =
      (persist_job_status job_id job.status (progress_of env.floats job.metrics) job.metrics
        job.error (output_paths job.results) s).1

  unfoldable pub persist_failure : JobId → JobState → StateStore → StateStore
  persist_failure job_id job s =
      (persist_job_status job_id JobStatus.failed (progress_of env.floats job.metrics) job.metrics
        job.error (output_paths job.results) (persist_job job_id job.dag JobStatus.failed s).1).1

  abbrev pub settle : JobId → JobState → StateStore → JobState × StateStore
  settle job_id job s =
      let done = record job { status = JobStatus.succeeded } in
      if unfinished job
      then (job, persist_progress job_id job s)
      else (done, persist_success job_id done s)

  -- What the report does to its job, and to the store, once the task's row is written.
  unfoldable pub settle_report :
      TaskStatus → TaskResult → JobState → StateStore → JobState × StateStore
  settle_report TaskStatus.completed result job s =
      settle result.job_id (note_completed result job) s
  settle_report (TaskStatus.failed msg) result job s =
      let job' = note_failed result (some msg) job in (job', persist_failure result.job_id job' s)
  settle_report _ result job s = (job, s)

  abbrev pub finish_report :
      TaskResult → JobState → Outcome (Unit {0}) × StateStore → Master → Outcome (Unit {0}) × Master
  finish_report result job (err e, s) m = (err e, with_store (put_job m result.job_id job) s)
  finish_report result job (ok _, s) m =
      let (job', s') = settle_report result.status result job s in
      (ok tt, with_store (put_job m result.job_id job') s')

  abbrev pub report_on : TaskResult → Option JobState → Master → Outcome (Unit {0}) × Master
  report_on result none m = (ok tt, m)
  report_on result (some job) m =
      finish_report result (note_status result job) (persist_task_result result m.state_store) m

  -- A report on a job that the master does not know is ignored.
  unfoldable pub complete_task : TaskResult → Master → Outcome (Unit {0}) × Master
  complete_task result m = report_on result (get m.jobs result.job_id) m

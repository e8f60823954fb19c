-- ===== src/Master/Submission.antt =====
-- `submit_job` of src/master/mod.rs. The fresh identifier (`Uuid::new_v4`) is an argument.
use distributed_processing_e.Base.{none, List, [], ◌∷◌, map, length}
use distributed_processing_e.Base.Eq.{nat_eq}
use distributed_processing_e.Base.Floats.{f32_zero}
use distributed_processing_e.Base.Map.{HashMap, insert}
use distributed_processing_e.Base.Outcome.{Outcome, ok, err}
use distributed_processing_e.Dag.{materialize_tasks, to_stages, validate}
use distributed_processing_e.Master.Scheduling.{schedule_each}
use distributed_processing_e.Master.State.{Env, JobState, Master, with_store}
use distributed_processing_e.Spec.{DagSpecification, Stage}
use distributed_processing_e.StateStore.{
  StateStore, persist_job, persist_job_status, persist_task_status,
}
use distributed_processing_e.Types.{
  JobId, TaskId, JobStatus, TaskStatus, Task, StageMetrics, default_job_metrics,
}

abbrev pub stage_metrics : Stage → StageMetrics
stage_metrics s = record {
  stage_id = s.stage_id;
  tasks_total = s.partitions;
  tasks_completed = 0;
  tasks_failed = 0;
  duration_ms = 0;
}

abbrev queue_all : List Task → HashMap TaskId TaskStatus → HashMap TaskId TaskStatus
queue_all [] tasks = tasks
queue_all (task ∷ rest) tasks = queue_all rest (insert tasks task.task_id TaskStatus.queued)

-- The task rows, one transaction each; the first that fails ends the loop.
abbrev pub and_then :
    Outcome (Unit {0}) × StateStore
    → (StateStore → Outcome (Unit {0}) × StateStore)
    → Outcome (Unit {0}) × StateStore
and_then (ok _, s) f = f s
and_then (err e, s) f = (err e, s)

unfoldable pub persist_queued : JobId → List Task → StateStore → Outcome (Unit {0}) × StateStore
persist_queued job_id [] s = (ok tt, s)
persist_queued job_id (task ∷ tasks) s =
    and_then (persist_task_status task.task_id job_id TaskStatus.queued s)
      (persist_queued job_id tasks)

-- The job row is written before the task rows, which refer to it.
unfoldable pub persist_submission :
    JobId → DagSpecification → List Task → StateStore → Outcome (Unit {0}) × StateStore
persist_submission job_id dag tasks s =
    and_then (persist_job job_id dag JobStatus.accepted s) (persist_queued job_id tasks)

module _ (env : Env) where
  unfoldable pub initial_job : DagSpecification → List Task → JobState
  initial_job dag tasks = record {
    dag = dag;
    status = JobStatus.accepted;
    tasks = queue_all tasks [];
    results = [];
    metrics = record default_job_metrics {
      total_tasks = length tasks;
      pending_tasks = length tasks;
      stages = map stage_metrics (to_stages (env.iter 0) dag);
    };
    error = none;
  }

  abbrev pub accept : JobId → JobState → List Task → StateStore → Master → Outcome JobId × Master
  accept job_id job tasks s m =
      let s' = (persist_job_status job_id JobStatus.accepted f32_zero job.metrics none [] s).1 in
      let stored = record m { state_store = s'; jobs = insert m.jobs job_id job } in
      (ok job_id, schedule_each env tasks stored)

  abbrev pub after_tasks :
      JobId
      → JobState
      → List Task
      → Outcome (Unit {0}) × StateStore
      → Master
      → Outcome JobId × Master
  after_tasks job_id job tasks (err e, s) m = (err e, with_store m s)
  after_tasks job_id job tasks (ok _, s) m = accept job_id job tasks s m

  abbrev submit_valid : JobId → DagSpecification → Master → Outcome JobId × Master
  submit_valid job_id dag m =
      let tasks = materialize_tasks (env.iter 1) env.new_v5 dag job_id in
      after_tasks job_id (initial_job dag tasks) tasks
        (persist_submission job_id dag tasks m.state_store) m

  abbrev pub submit_checked :
      Outcome (Unit {0}) → JobId → DagSpecification → Master → Outcome JobId × Master
  submit_checked (err e) job_id dag m = (err e, m)
  submit_checked (ok _) job_id dag m = submit_valid job_id dag m

  unfoldable pub submit_job : JobId → DagSpecification → Master → Outcome JobId × Master
  submit_job job_id dag m = submit_checked (validate dag) job_id dag m

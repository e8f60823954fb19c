-- ===== src/Master/Queries.antt =====
-- `get_job_status` and `get_job_results` of src/master/mod.rs.
use Prim.Native.String.{◌++◌ as append}
use distributed_processing_e.Base.{String, Option, none, some, List, [], ◌∷◌, if◌then◌else◌}
use distributed_processing_e.Base.Eq.{◌==◌, nat_eq}
use distributed_processing_e.Base.Floats.{F32}
use distributed_processing_e.Base.Map.{get}
use distributed_processing_e.Master.State.{Env, JobState, Master, progress_of, output_paths}
use distributed_processing_e.Registry.{available_workers}
use distributed_processing_e.Types.{
  JobId, JobStatus, JobMetrics, WorkerInfo, WorkerAggregate, TaskResult, EngineError, not_found,
}

pub record JobStatusResponse : Type 0 where
  pub job_id : JobId
  pub status : JobStatus
  pub progress : F32
  pub metrics : JobMetrics
  pub error : Option String
  pub outputs : List String

pub data Answer {ℓ} (A : Type ℓ) : Type ℓ where
  ok : A → Answer A
  err : EngineError → Answer A

abbrev pub aggregate_of : WorkerInfo → WorkerAggregate
aggregate_of w = record {
  worker_id = w.id;
  tasks_completed = w.metrics.tasks_completed;
  tasks_failed = w.metrics.tasks_failed;
  records_processed = w.metrics.records_processed;
  cpu_time_ms = 0;
  wall_time_ms = 0;
}

-- The first aggregate of the worker is replaced; a new one is appended.
unfoldable pub upsert_aggregate : WorkerAggregate → List WorkerAggregate → List WorkerAggregate
upsert_aggregate agg [] = agg ∷ []
upsert_aggregate agg (w ∷ workers) =
    if w.worker_id == agg.worker_id then agg ∷ workers else w ∷ upsert_aggregate agg workers

unfoldable pub merge_workers : List WorkerInfo → List WorkerAggregate → List WorkerAggregate
merge_workers [] aggregates = aggregates
merge_workers (w ∷ workers) aggregates =
    merge_workers workers (upsert_aggregate (aggregate_of w) aggregates)

module _ (env : Env) where
  abbrev pub job_not_found : JobId → EngineError
  job_not_found job_id = not_found (append "job " (append (env.uuid_text job_id) " not found"))

  abbrev pub status_of : JobId → Option JobState → Master → Answer JobStatusResponse
  status_of job_id none m = Answer.err (job_not_found job_id)
  status_of job_id (some job) m = Answer.ok (record {
    job_id = job_id;
    status = job.status;
    progress = progress_of env.floats job.metrics;
    metrics = record job.metrics {
      workers = merge_workers (available_workers m.registry) job.metrics.workers;
    };
    error = job.error;
    outputs = output_paths job.results;
  })

  unfoldable pub get_job_status : JobId → Master → Answer JobStatusResponse
  get_job_status job_id m = status_of job_id (get m.jobs job_id) m

  abbrev pub results_of : JobId → Option JobState → Answer (List TaskResult)
  results_of job_id none = Answer.err (job_not_found job_id)
  results_of job_id (some job) = Answer.ok job.results

  unfoldable pub get_job_results : JobId → Master → Answer (List TaskResult)
  get_job_results job_id m = results_of job_id (get m.jobs job_id)

-- ===== src/StateStore.antt =====
-- The SQLite file of the master: src/common/state_store.rs. A table is a map from its primary key to
-- the other columns; a row holds the values whose JSON the program writes (what is read from the rows,
-- statuses, dags and tasks, has no floats, and serde_json reads it back as it wrote it). SQLite is not under src/: `faults` lists, for each coming transaction or query, the
-- error with which it fails, if it does; when the list has run out, none fails.
pub mod Laws
pub mod Clean
mod Tests
use distributed_processing_e.Base.{
  ℕ, ◌/◌, ◌^◌, String, Bool, true, false, ◌&&◌, ◌≡◌, ◌↔◌, arith, Option, none, some, List, [], ◌∷◌,
  map, if◌then◌else◌,
}
use distributed_processing_e.Base.Eq.{Eq, ◌==◌, nat_eq}
use distributed_processing_e.Base.Floats.{F32}
use distributed_processing_e.Base.Map.{HashMap, get, insert, modify}
use distributed_processing_e.Base.Outcome.{Outcome, ok, err, ◌>>=◌}
use distributed_processing_e.Spec.{DagSpecification}
use distributed_processing_e.Types.{
  JobId, TaskId, WorkerId, StageId, SystemTime, JobStatus, TaskStatus, WorkerStatus, WorkerMetrics,
  JobMetrics, StageMetrics, TaskResult,
}

pub record JobRow : Type 0 where
  pub status : JobStatus
  pub dag : DagSpecification

pub record TaskRow : Type 0 where
  pub job_id : JobId
  pub status : TaskStatus
  pub result : Option TaskResult

pub record JobStatusRow : Type 0 where
  pub state : JobStatus
  pub progress : F32
  pub metrics : JobMetrics
  pub error : String
  pub outputs : List String

pub record StageRow : Type 0 where
  pub status : JobStatus
  pub metrics : StageMetrics

pub record WorkerRow : Type 0 where
  pub last_heartbeat : ℕ
  pub status : WorkerStatus
  pub metrics : WorkerMetrics

pub record Tables : Type 0 where
  pub jobs : HashMap JobId JobRow
  pub tasks : HashMap TaskId TaskRow
  pub job_status : HashMap JobId JobStatusRow
  pub stage_status : HashMap (JobId × StageId) StageRow
  pub worker_metrics : HashMap WorkerId WorkerRow

pub record StateStore : Type 0 where
  pub tables : Tables
  pub open tables use *
  pub faults : List (Option String)

abbrev pub new_tables : Tables
new_tables = record {
  jobs = [];
  tasks = [];
  job_status = [];
  stage_status = [];
  worker_metrics = [];
}

pub pair_same : ℕ × ℕ → ℕ × ℕ → Bool
pair_same (a, b) (c, d) = a == c && b == d

pub pair_same_iff : (p q : ℕ × ℕ) → (pair_same p q ≡ true) ↔ (p ≡ q)
unfolding pair_same
pair_same_iff (a, b) (c, d) = ground arith

instance abbrev pub pair_eq : Eq (ℕ × ℕ)
unfolding pair_same
pair_eq = record { same = pair_same; same_iff = pair_same_iff }

-- One transaction: it is rolled back where a statement of it fails, or where SQLite does.
abbrev pub run_on : (Tables → Outcome Tables) → StateStore → Outcome (Unit {0}) × StateStore
run_on statement s = elim (statement s.tables) [
  | ok t ↦ (ok tt, record s { tables = t })
  | err e ↦ (err e, s)
]

abbrev pub with_fault :
    List (Option String)
    → (StateStore → Outcome (Unit {0}) × StateStore)
    → StateStore
    → Outcome (Unit {0}) × StateStore
with_fault [] act s = act s
with_fault (none ∷ rest) act s = act (record s { faults = rest })
with_fault (some e ∷ rest) act s = (err e, record s { faults = rest })

unfoldable pub transact : (Tables → Outcome Tables) → StateStore → Outcome (Unit {0}) × StateStore
transact statement s = with_fault s.faults (run_on statement) s

abbrev pub read_fault {ℓ} :
    {A : Type ℓ} → List (Option String) → (Tables → A) → StateStore → Outcome A × StateStore
read_fault [] q s = (ok (q s.tables), s)
read_fault (none ∷ rest) q s = (ok (q s.tables), record s { faults = rest })
read_fault (some e ∷ rest) q s = (err e, record s { faults = rest })

unfoldable pub query {ℓ} : {A : Type ℓ} → (Tables → A) → StateStore → Outcome A × StateStore
query q s = read_fault s.faults q s

abbrev pub job_statement : JobId → DagSpecification → JobStatus → Tables → Outcome Tables
job_statement job_id dag status t =
    ok (record t { jobs = insert t.jobs job_id (record { status = status; dag = dag }) })

unfoldable pub persist_job :
    JobId → DagSpecification → JobStatus → StateStore → Outcome (Unit {0}) × StateStore
persist_job job_id dag status = transact (job_statement job_id dag status)

-- `error.unwrap_or_default()`
abbrev text_or_empty : Option String → String
text_or_empty none = ""
text_or_empty (some e) = e

abbrev pub job_status_statement :
    JobId → JobStatus → F32 → JobMetrics → Option String → List String → Tables → Outcome Tables
job_status_statement job_id state progress metrics error outputs t =
    let row : JobStatusRow = record {
      state = state;
      progress = progress;
      metrics = metrics;
      error = text_or_empty error;
      outputs = outputs;
    } in
    ok (record t { job_status = insert t.job_status job_id row })

unfoldable pub persist_job_status :
    JobId
    → JobStatus
    → F32
    → JobMetrics
    → Option String
    → List String
    → StateStore
    → Outcome (Unit {0}) × StateStore
persist_job_status job_id state progress metrics error outputs =
    transact (job_status_statement job_id state progress metrics error outputs)

abbrev pub stage_statement : JobId → StageId → JobStatus → StageMetrics → Tables → Outcome Tables
stage_statement job_id stage_id status metrics t =
    let row : StageRow = record { status = status; metrics = metrics } in
    ok (record t { stage_status = insert t.stage_status (job_id, stage_id) row })

unfoldable pub persist_stage_status :
    JobId → StageId → JobStatus → StageMetrics → StateStore → Outcome (Unit {0}) × StateStore
persist_stage_status job_id stage_id status metrics =
    transact (stage_statement job_id stage_id status metrics)

-- `strftime('%s', 'now')` is in seconds.
abbrev pub worker_statement :
    SystemTime → WorkerId → WorkerStatus → WorkerMetrics → Tables → Outcome Tables
worker_statement now worker_id status metrics t =
    let row : WorkerRow = record {
      last_heartbeat = now / 10 ^ 9;
      status = status;
      metrics = metrics;
    } in
    ok (record t { worker_metrics = insert t.worker_metrics worker_id row })

unfoldable pub persist_worker_metrics :
    SystemTime
    → WorkerId
    → WorkerStatus
    → WorkerMetrics
    → StateStore
    → Outcome (Unit {0}) × StateStore
persist_worker_metrics now worker_id status metrics =
    transact (worker_statement now worker_id status metrics)

abbrev pub foreign_key_error : String
foreign_key_error = "FOREIGN KEY constraint failed"

-- `INSERT … ON CONFLICT(task_id) DO UPDATE`: a row that is there keeps its `job_id`; a new row must
-- name a job that is there (the bundled SQLite enforces foreign keys).
abbrev pub upsert_task : TaskId → TaskRow → (TaskRow → TaskRow) → Tables → Outcome Tables
upsert_task task_id row update t = elim (get t.tasks task_id) [
  | some old ↦ ok (record t { tasks = insert t.tasks task_id (update old) })
  | none ↦ elim (get t.jobs row.job_id) [
    | some job ↦ ok (record t { tasks = insert t.tasks task_id row })
    | none ↦ err foreign_key_error
  ]
]

abbrev pub task_status_statement : TaskId → JobId → TaskStatus → Tables → Outcome Tables
task_status_statement task_id job_id status =
    upsert_task task_id (record { job_id = job_id; status = status; result = none })
      (λ old. record old { status = status })

unfoldable pub persist_task_status :
    TaskId → JobId → TaskStatus → StateStore → Outcome (Unit {0}) × StateStore
persist_task_status task_id job_id status = transact (task_status_statement task_id job_id status)

abbrev pub task_result_statement : TaskResult → Tables → Outcome Tables
task_result_statement result =
    upsert_task result.task_id
      (record { job_id = result.job_id; status = result.status; result = some result })
      (λ old. record old { status = result.status; result = some result })

unfoldable pub persist_task_result : TaskResult → StateStore → Outcome (Unit {0}) × StateStore
persist_task_result result = transact (task_result_statement result)

unfoldable pub load_all_jobs : StateStore → Outcome (List (JobId × JobRow)) × StateStore
load_all_jobs = query (λ t. t.jobs)

unfoldable pub load_all_tasks : StateStore → Outcome (List (TaskId × TaskRow)) × StateStore
load_all_tasks = query (λ t. t.tasks)

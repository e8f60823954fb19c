-- ===== src/StateStore/Clean.antt =====
-- What the store's writes do while SQLite does not fail.
use distributed_processing_e.Base.{
  ◌≡◌, refl, ap, ◌∙◌, Option, some, List, [], String, Option-cases, inl, inr,
}
use distributed_processing_e.Base.Eq.{nat_eq}
use distributed_processing_e.Base.Floats.{F32}
use distributed_processing_e.Base.Map.{get, insert}
use distributed_processing_e.Base.Outcome.{Outcome, ok, err}
use distributed_processing_e.Spec.{DagSpecification}
use distributed_processing_e.StateStore.{
  StateStore, Tables, JobRow, TaskRow, transact, run_on, with_fault, persist_job,
  persist_job_status, persist_worker_metrics, persist_task_status, persist_task_result, upsert_task,
  job_statement, job_status_statement, worker_statement, task_status_statement,
  task_result_statement,
}
use distributed_processing_e.Types.{
  JobId, TaskId, WorkerId, SystemTime, JobStatus, TaskStatus, WorkerStatus, WorkerMetrics,
  JobMetrics, TaskResult,
}

-- No transaction and no query to come fails in SQLite.
abbrev pub IsClean : StateStore → Type 0
IsClean s = s.faults ≡ []

pub transact-clean :
    (f : Tables → Outcome Tables) (s : StateStore) → IsClean s → transact f s ≡ run_on f s
unfolding transact
transact-clean f s h = ap (λ faults. with_fault faults (run_on f) s) h

-- The store stays clean and its job rows stay.
pub record Quiet (s s' : StateStore) : Type 0 where
  pub clean : IsClean s'
  pub jobs : s'.tables.jobs ≡ s.tables.jobs

pub Quiet-refl : (s : StateStore) → IsClean s → Quiet s s
Quiet-refl s h = record { clean = h; jobs = refl }

pub Quiet-trans : (a b c : StateStore) → Quiet a b → Quiet b c → Quiet a c
Quiet-trans a b c f g = record { clean = g.clean; jobs = g.jobs ∙ f.jobs }

-- A statement that does not write to the job rows.
transact-Quiet :
    (f : Tables → Outcome Tables) (s : StateStore)
    → IsClean s
    → ((t : Tables) → f s.tables ≡ ok t → t.jobs ≡ s.tables.jobs)
    → Quiet s (transact f s).1
transact-Quiet f s h same = rw (transact-clean f s h) (go (f s.tables) refl)
  where
    go : (o : Outcome Tables) → f s.tables ≡ o → Quiet s (run_on f s).1
    go (ok t) e = rw (e, run_on) (record { clean = h; jobs = same t e })
    go (err msg) e = rw (e, run_on) (Quiet-refl s h)

ok-jobs : (t : Tables) {u : Tables} → ok u ≡ ok t → t.jobs ≡ u.jobs
ok-jobs t {u} e = ap (λ (t : Tables). t.jobs) (tables_same u t e)
  where
    tables_same : (u t : Tables) → ok u ≡ ok t → t ≡ u
    tables_same u t e = cc

upsert_task-jobs :
    (k : TaskId) (row : TaskRow) (update : TaskRow → TaskRow) (t t' : Tables)
    → upsert_task k row update t ≡ ok t'
    → t'.jobs ≡ t.jobs
upsert_task-jobs k row update t t' e = elim (Option-cases (get t.tasks k)) [
  | inr (old, there) ↦ ok-jobs t' (rw (there, upsert_task) at e)
  | inl absent ↦ elim (Option-cases (get t.jobs row.job_id)) [
    | inl orphan ↦ absurd (clash (rw (absent, orphan, upsert_task) at e))
    | inr (job, there) ↦ ok-jobs t' (rw (absent, there, upsert_task) at e)
  ]
]
  where
    clash : {e : String} {t : Tables} → ◌≡◌ {A = Outcome Tables} (err e) (ok t) → ⊥
    clash e = cc

pub persist_task_status-Quiet :
    (k : TaskId) (j : JobId) (status : TaskStatus) (s : StateStore)
    → IsClean s
    → Quiet s (persist_task_status k j status s).1
unfolding persist_task_status
persist_task_status-Quiet k j status s h =
    transact-Quiet (task_status_statement k j status) s h
      (upsert_task-jobs k _ (λ old. record old { status = status }) s.tables)

pub persist_task_result-Quiet :
    (r : TaskResult) (s : StateStore) → IsClean s → Quiet s (persist_task_result r s).1
unfolding persist_task_result
persist_task_result-Quiet r s h = transact-Quiet (task_result_statement r) s h (
    upsert_task-jobs r.task_id _ (λ old. record old { status = r.status; result = some r })
      s.tables)

pub persist_job_status-Quiet :
    (j : JobId) (status : JobStatus) (p : F32) (metrics : JobMetrics) (e : Option String)
    (outputs : List String) (s : StateStore)
    → IsClean s
    → Quiet s (persist_job_status j status p metrics e outputs s).1
unfolding persist_job_status
persist_job_status-Quiet j status p metrics e outputs s h =
    transact-Quiet (job_status_statement j status p metrics e outputs) s h (λ t. ok-jobs t)

pub persist_worker_metrics-Quiet :
    (now : SystemTime) (w : WorkerId) (status : WorkerStatus) (metrics : WorkerMetrics)
    (s : StateStore)
    → IsClean s
    → Quiet s (persist_worker_metrics now w status metrics s).1
unfolding persist_worker_metrics
persist_worker_metrics-Quiet now w status metrics s h =
    transact-Quiet (worker_statement now w status metrics) s h (λ t. ok-jobs t)

pub persist_job_clean :
    (j : JobId) (dag : DagSpecification) (status : JobStatus) (s : StateStore)
    → IsClean s
    → persist_job j dag status s ≡ (
      ok tt,
      record s {
        tables = record s.tables {
          jobs = insert s.tables.jobs j (record { status = status; dag = dag });
        };
      },
    )
unfolding persist_job
persist_job_clean j dag status s h = transact-clean (job_statement j dag status) s h

-- The row of a task can be written where its job has a row.
pub persist_task_status_ok :
    (k : TaskId) (j : JobId) (status : TaskStatus) (s : StateStore) (row : JobRow)
    → IsClean s
    → get s.tables.jobs j ≡ some row
    → (persist_task_status k j status s).0 ≡ ok tt
unfolding persist_task_status
persist_task_status_ok k j status s row h there =
    ap (λ (p : Outcome (Unit {0}) × StateStore). p.0)
      (transact-clean (task_status_statement k j status) s h)
    ∙ elim (Option-cases (get s.tables.tasks k)) [
      | inr (old, found) ↦ rw (found, task_status_statement, upsert_task, run_on)
      | inl absent ↦ rw (absent, there, task_status_statement, upsert_task, run_on)
    ]

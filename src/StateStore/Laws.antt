-- ===== src/StateStore/Laws.antt =====
-- What a transaction on the state store keeps, writes and gives back.
use mathlib.Core.Path.{subst}
use mathlib.Core.Option.{some-injective, none-ne-some}
use distributed_processing_e.Base.{
  ◌≡◌, ◌≢◌, inl, inr, refl, sym, ap, ◌∙◌, Option, none, some, List, [], ◌∷◌, All, String,
  Bool-cases, Option-cases,
}
use distributed_processing_e.Base.Eq.{◌==◌, nat_eq}
use distributed_processing_e.Base.Floats.{F32}
use distributed_processing_e.Base.Map.{HashMap, get, insert, get-insert_self, get-insert, values}
use distributed_processing_e.Base.Outcome.{Outcome, ok, err}
use distributed_processing_e.Spec.{DagSpecification}
use distributed_processing_e.StateStore.{
  StateStore, Tables, JobRow, TaskRow, transact, run_on, with_fault, persist_job,
  persist_job_status, persist_stage_status, persist_worker_metrics, persist_task_status,
  persist_task_result, upsert_task, job_statement, job_status_statement, stage_statement,
  worker_statement, task_status_statement, task_result_statement,
}
use distributed_processing_e.Types.{
  JobId, TaskId, StageId, WorkerId, SystemTime, JobStatus, TaskStatus, WorkerStatus, WorkerMetrics,
  JobMetrics, StageMetrics, TaskResult,
}

-- A transaction commits what its statement makes, or fails and leaves the tables.
pub data Committed (f : Tables → Outcome Tables) (s : StateStore)
    (p : Outcome (Unit {0}) × StateStore) : Type 0 where
  commits : p.0 ≡ ok tt → f s.tables ≡ ok p.1.tables → Committed f s p
  rolls_back : (e : String) → p.0 ≡ err e → p.1.tables ≡ s.tables → Committed f s p

module _ (f : Tables → Outcome Tables) where
  run_on-Committed :
      (s : StateStore) (faults : List (Option String))
      → Committed f s (run_on f (record s { faults = faults }))
  run_on-Committed s faults = go (f s.tables) refl
    where
      go :
          (o : Outcome Tables)
          → f s.tables ≡ o
          → Committed f s (run_on f (record s { faults = faults }))
      go (ok t) e = rw (e, run_on) (commits refl e)
      go (err msg) e = rw (e, run_on) (rolls_back msg refl refl)

  pub transact-Committed : (s : StateStore) → Committed f s (transact f s)
  unfolding transact
  transact-Committed s = go s.faults
    where
      go : (faults : List (Option String)) → Committed f s (with_fault faults (run_on f) s)
      go [] = run_on-Committed s s.faults
      go (none ∷ rest) = run_on-Committed s rest
      go (some e ∷ rest) = rolls_back e refl refl

abbrev pub HasJob : HashMap JobId JobRow → TaskRow → Type 0
HasJob jobs row = (job : JobRow) × (get jobs row.job_id ≡ some job)

-- Every task row names a job row.
abbrev pub IsReferential : Tables → Type 0
IsReferential t = All (HasJob t.jobs) (values t.tasks)

All-insert :
    (P : TaskRow → Type 0) (tasks : HashMap TaskId TaskRow) (k : TaskId) (row : TaskRow)
    → P row
    → All P (values tasks)
    → All P (values (insert tasks k row))
unfolding insert
All-insert P [] k row p h = (p, tt)
All-insert P ((i, v) ∷ tasks) k row p h = elim (Bool-cases (i == k)) [
  | inl same ↦ rw same (p, h.1)
  | inr other ↦ rw other (h.0, All-insert P tasks k row p h.1)
]

All-get :
    (P : TaskRow → Type 0) (tasks : HashMap TaskId TaskRow) (k : TaskId) (row : TaskRow)
    → All P (values tasks)
    → get tasks k ≡ some row
    → P row
unfolding get
All-get P [] k row h e = absurd (none-ne-some row e)
All-get P ((i, v) ∷ tasks) k row h e = elim (Bool-cases (i == k)) [
  | inl same ↦ subst P (some-injective _ _ (rw same at e)) h.0
  | inr other ↦ All-get P tasks k row h.1 (rw other at e)
]

transact-IsReferential :
    (f : Tables → Outcome Tables) (s : StateStore)
    → ((t : Tables) → f s.tables ≡ ok t → IsReferential t)
    → IsReferential s.tables
    → IsReferential (transact f s).1.tables
transact-IsReferential f s keeps h = elim (transact-Committed f s) [
  | commits done made ↦ keeps _ made
  | rolls_back e failed same ↦ subst IsReferential (sym same) h
]

insert_job-HasJob :
    (jobs : HashMap JobId JobRow) (j : JobId) (job : JobRow) (row : TaskRow)
    → HasJob jobs row
    → HasJob (insert jobs j job) row
insert_job-HasJob jobs j job row (old, there) = elim (Bool-cases (j == row.job_id)) [
  | inl same ↦ (job, get-insert jobs j job row.job_id ∙ rw same)
  | inr other ↦ (old, get-insert jobs j job row.job_id ∙ rw other there)
]

All-mono :
    (P Q : TaskRow → Type 0) (rows : List TaskRow)
    → ((row : TaskRow) → P row → Q row)
    → All P rows
    → All Q rows
All-mono P Q [] f h = tt
All-mono P Q (row ∷ rows) f h = (f row h.0, All-mono P Q rows f h.1)

insert_job-IsReferential :
    (t : Tables) (j : JobId) (row : JobRow)
    → IsReferential t
    → IsReferential (record t { jobs = insert t.jobs j row })
insert_job-IsReferential t j row =
    All-mono (HasJob t.jobs) (HasJob (insert t.jobs j row)) (values t.tasks)
      (insert_job-HasJob t.jobs j row)

ok-injective : {a b : Tables} → ok a ≡ ok b → a ≡ b
ok-injective e = cc

err_not_ok : {e : String} {t : Tables} → ◌≢◌ {A = Outcome Tables} (err e) (ok t)
err_not_ok e = cc

upsert_task-IsReferential :
    (k : TaskId) (row : TaskRow) (update : TaskRow → TaskRow) (t t' : Tables)
    → ((old : TaskRow) → (update old).job_id ≡ old.job_id)
    → IsReferential t
    → upsert_task k row update t ≡ ok t'
    → IsReferential t'
upsert_task-IsReferential k row update t t' keeps h e = elim (Option-cases (get t.tasks k)) [
  | inr (old, there) ↦ subst IsReferential (ok-injective (rw (there, upsert_task) at e)) (
      All-insert (HasJob t.jobs) t.tasks k (update old)
        (subst (λ j. (job : JobRow) × (get t.jobs j ≡ some job)) (sym (keeps old))
          (All-get (HasJob t.jobs) t.tasks k old h there))
        h)
  | inl absent ↦ elim (Option-cases (get t.jobs row.job_id)) [
    | inl orphan ↦ absurd (err_not_ok (rw (absent, orphan, upsert_task) at e))
    | inr named ↦
        subst IsReferential (ok-injective (rw (absent, named.1, upsert_task) at e))
          (All-insert (HasJob t.jobs) t.tasks k row named h)
  ]
]

-- The writes of the store, as a client may call them.
pub data Write : Type 0 where
  job : JobId → DagSpecification → JobStatus → Write
  job_status : JobId → JobStatus → F32 → JobMetrics → Option String → List String → Write
  stage_status : JobId → StageId → JobStatus → StageMetrics → Write
  worker_metrics : SystemTime → WorkerId → WorkerStatus → WorkerMetrics → Write
  task_status : TaskId → JobId → TaskStatus → Write
  task_result : TaskResult → Write

abbrev pub write : Write → StateStore → Outcome (Unit {0}) × StateStore
write (job j dag status) s = persist_job j dag status s
write (job_status j status progress metrics error outputs) s =
    persist_job_status j status progress metrics error outputs s
write (stage_status j stage status metrics) s = persist_stage_status j stage status metrics s
write (worker_metrics now w status metrics) s = persist_worker_metrics now w status metrics s
write (task_status t j status) s = persist_task_status t j status s
write (task_result r) s = persist_task_result r s

-- No write, whether it succeeds or fails, leaves a task row whose job has no row.
pub write-IsReferential :
    (w : Write) (s : StateStore) → IsReferential s.tables → IsReferential (write w s).1.tables
unfolding persist_job persist_job_status persist_stage_status persist_worker_metrics
    persist_task_status persist_task_result
write-IsReferential (job j dag status) s h =
    transact-IsReferential (job_statement j dag status) s
      (λ t e. subst IsReferential (ok-injective e) (insert_job-IsReferential s.tables j _ h)) h
write-IsReferential (job_status j status progress metrics error outputs) s h =
    transact-IsReferential (job_status_statement j status progress metrics error outputs) s
      (λ t e. subst IsReferential (ok-injective e) h) h
write-IsReferential (stage_status j stage status metrics) s h =
    transact-IsReferential (stage_statement j stage status metrics) s
      (λ t e. subst IsReferential (ok-injective e) h) h
write-IsReferential (worker_metrics now w status metrics) s h =
    transact-IsReferential (worker_statement now w status metrics) s
      (λ t e. subst IsReferential (ok-injective e) h) h
write-IsReferential (task_status k j status) s h =
    transact-IsReferential (task_status_statement k j status) s
      (λ t e. upsert_task-IsReferential k _ _ s.tables t (λ old. refl) h e) h
write-IsReferential (task_result r) s h =
    transact-IsReferential (task_result_statement r) s
      (λ t e. upsert_task-IsReferential r.task_id _ _ s.tables t (λ old. refl) h e) h

-- A new status that is stored keeps the result and the job of a task that was there.
persist_task_status_kept :
    (k : TaskId) (j : JobId) (status : TaskStatus) (s : StateStore) (old : TaskRow)
    → get s.tables.tasks k ≡ some old
    → (persist_task_status k j status s).0 ≡ ok tt
    → get (persist_task_status k j status s).1.tables.tasks k
      ≡ some (record old { status = status })
unfolding persist_task_status
persist_task_status_kept k j status s old there done =
    elim (transact-Committed (task_status_statement k j status) s) [
      | commits _ made ↦
          ap (λ (t : Tables). get t.tasks k) (sym (ok-injective (rw (there, upsert_task) at made)))
          ∙ get-insert_self s.tables.tasks k (record old { status = status })
      | rolls_back e failed same ↦ absurd (unit_not_err (sym done ∙ failed))
    ]
  where
    unit_not_err : {e : String} → ◌≢◌ {A = Outcome (Unit {0})} (ok tt) (err e)
    unit_not_err e = cc

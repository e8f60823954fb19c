-- ===== src/Master/Durability.antt =====
-- That the job rows of the state store follow the master's jobs, while SQLite does not fail.
use mathlib.Core.Path.{subst}
use distributed_processing_e.Base.{
  ◌≡◌, refl, sym, ap, ◌∙◌, Option, none, some, List, [], ◌∷◌, Bool-cases, Option-cases, inl, inr,
}
use distributed_processing_e.Base.Eq.{◌==◌, nat_eq}
use distributed_processing_e.Base.Map.{
  HashMap, get, insert, modify, modify_cases, get-insert, get-modify, Distinct, insert-Distinct,
}
use distributed_processing_e.Base.Outcome.{Outcome}
use distributed_processing_e.Master.Scheduling.{
  assign, post, schedule_on, schedule_task, mark_running, persist_running, dispatch, schedule_each,
}
use distributed_processing_e.Master.State.{Env, JobState, Master, put_job, with_store, is_running}
use distributed_processing_e.Registry.{get_worker}
use distributed_processing_e.Scheduler.{RoundRobinScheduler, select_worker}
use distributed_processing_e.Spec.{DagSpecification}
use distributed_processing_e.StateStore.{StateStore, JobRow, persist_job, persist_task_status}
use distributed_processing_e.StateStore.Clean.{
  IsClean, Quiet, persist_task_status-Quiet, persist_job_status-Quiet, persist_job_clean,
}
use distributed_processing_e.Types.{
  JobId, WorkerId, WorkerInfo, JobStatus, TaskStatus, Task, running,
}

-- The row of the job.
abbrev pub row_of : JobState → JobRow
row_of job = record { status = job.status; dag = job.dag }

-- Every job has a row with its dag and its status; no identifier has two rows.
abbrev pub Mirrors : HashMap JobId JobRow → HashMap JobId JobState → Type 0
Mirrors rows jobs =
    Distinct rows
    × ((j : JobId) (job : JobState) → get jobs j ≡ some job → get rows j ≡ some (row_of job))

pub record IsDurable (m : Master) : Type 0 where
  pub clean : IsClean m.state_store
  pub mirrors : Mirrors m.state_store.tables.jobs m.jobs

-- The job is written to both.
pub Mirrors-insert :
    (rows : HashMap JobId JobRow) (jobs : HashMap JobId JobState) (j : JobId) (job : JobState)
    → Mirrors rows jobs
    → Mirrors (insert rows j (row_of job)) (insert jobs j job)
Mirrors-insert rows jobs j job h = (
  insert-Distinct rows j (row_of job) h.0,
  λ i found e. elim (Bool-cases (j == i)) [
    | inl same ↦
        get-insert rows j (row_of job) i
        ∙ rw same (
            ap (λ (job : JobState). some (row_of job))
              (some_inj (rw same at (sym (get-insert jobs j job i) ∙ e))))
    | inr other ↦
        get-insert rows j (row_of job) i
        ∙ rw other (h.1 i found (rw other at (sym (get-insert jobs j job i) ∙ e)))
  ],
)
  where
    some_inj : {a b : JobState} → some a ≡ some b → a ≡ b
    some_inj e = cc

Mirrors-modify :
    (rows : HashMap JobId JobRow) (jobs : HashMap JobId JobState) (j : JobId) (job : JobState)
    → Mirrors rows jobs
    → Mirrors (insert rows j (row_of job)) (modify jobs j (λ _. job))
Mirrors-modify rows jobs j job h = (
  insert-Distinct rows j (row_of job) h.0,
  λ i found e. elim (Bool-cases (j == i)) [
    | inl same ↦
        get-insert rows j (row_of job) i
        ∙ rw same (
            ap (λ (job : JobState). some (row_of job))
              (written (get jobs i) (rw same at (sym (get-modify jobs j (λ _. job) i) ∙ e))))
    | inr other ↦
        get-insert rows j (row_of job) i
        ∙ rw other (h.1 i found (rw other at (sym (get-modify jobs j (λ _. job) i) ∙ e)))
  ],
)
  where
    written :
        (o : Option JobState) {found : JobState}
        → (elim o [ none ↦ none | some _ ↦ some job ]) ≡ some found
        → job ≡ found
    written none e = cc
    written (some _) e = cc

-- The job changes in what has no place in its row.
pub Mirrors-kept :
    (rows : HashMap JobId JobRow) (jobs : HashMap JobId JobState) (j : JobId)
    (f : JobState → JobState)
    → ((job : JobState) → get jobs j ≡ some job → row_of (f job) ≡ row_of job)
    → Mirrors rows jobs
    → Mirrors rows (modify jobs j f)
Mirrors-kept rows jobs j f same h = (
  h.0,
  λ i found e.
      let (old, there, how) = modify_cases jobs j f i e in
      elim how [
        | inl (here, made) ↦
            h.1 i old there
            ∙ ap (λ row. some row) (sym (same old (ap (get jobs) here ∙ there)))
            ∙ ap (λ (job : JobState). some (row_of job)) made
        | inr kept ↦ h.1 i old there ∙ ap (λ (job : JobState). some (row_of job)) kept
      ],
)

-- A write to the store that is quiet.
pub with_store-IsDurable :
    (m : Master) (s : StateStore) → IsDurable m → Quiet m.state_store s → IsDurable (with_store m s)
with_store-IsDurable m s h q = record {
  clean = q.clean;
  mirrors = subst (λ rows. Mirrors rows m.jobs) (sym q.jobs) h.mirrors;
}

-- A job that is written in memory, and whose row is written before and a status row after.
pub put_job-IsDurable :
    (m : Master) (j : JobId) (job : JobState) (s : StateStore)
    → IsDurable m
    → Quiet (persist_job j job.dag job.status m.state_store).1 s
    → IsDurable (with_store (put_job m j job) s)
put_job-IsDurable m j job s h q = record {
  clean = q.clean;
  mirrors =
      subst (λ rows. Mirrors rows (modify m.jobs j (λ _. job)))
        (sym (
          q.jobs
          ∙ ap (λ (p : Outcome (Unit {0}) × StateStore). p.1.tables.jobs)
              (persist_job_clean j job.dag job.status m.state_store h.clean)))
        (Mirrors-modify m.state_store.tables.jobs m.jobs j job h.mirrors);
}

pub persist_job-IsClean :
    (j : JobId) (dag : DagSpecification) (status : JobStatus) (s : StateStore)
    → IsClean s
    → IsClean (persist_job j dag status s).1
persist_job-IsClean j dag status s h =
    ap (λ (p : Outcome (Unit {0}) × StateStore). p.1.faults) (persist_job_clean j dag status s h)
    ∙ h

module _ (env : Env) where
  mark_running-IsDurable : (j : JobId) (m : Master) → IsDurable m → IsDurable (mark_running env j m)
  unfolding mark_running persist_running
  mark_running-IsDurable j m h = elim (Option-cases (get m.jobs j)) [
    | inl absent ↦ rw (absent, mark_running) h
    | inr (job, there) ↦ elim (Bool-cases (is_running job.status)) [
      | inl already ↦ rw (there, mark_running, already) h
      | inr not_yet ↦
          rw (there, mark_running, not_yet)
            (put_job-IsDurable m j (record job { status = running }) _ h
              (persist_job_status-Quiet j _ _ _ _ _ _
                (persist_job-IsClean j job.dag running m.state_store h.clean)))
    ]
  ]

  dispatch-IsDurable :
      (w : WorkerId) (task : Task) (m : Master) → IsDurable m → IsDurable (dispatch w task m)
  unfolding dispatch
  dispatch-IsDurable w task m h = go (get_worker m.registry w)
    where
      go : (o : Option WorkerInfo) → IsDurable (post task o m)
      go none = h
      go (some info) = record { clean = h.clean; mirrors = h.mirrors }

  schedule_task-IsDurable :
      (task : Task) (m : Master) → IsDurable m → IsDurable (schedule_task env task m)
  unfolding schedule_task
  schedule_task-IsDurable task m h = go (select_worker env.floats m.scheduler m.registry)
    where
      go :
          (p : Option WorkerId × RoundRobinScheduler)
          → IsDurable (schedule_on env p.0 task (record m { scheduler = p.1 }))
      go (none, s) = record { clean = h.clean; mirrors = h.mirrors }
      go (some w, s) = dispatch-IsDurable w task _ (
          mark_running-IsDurable task.job_id _ (
            with_store-IsDurable
              (record m { scheduler = s; jobs = modify m.jobs task.job_id (assign w task) })
              (persist_task_status task.task_id task.job_id (TaskStatus.assigned w) m.state_store).1
              (record {
                clean = h.clean;
                mirrors =
                    Mirrors-kept m.state_store.tables.jobs m.jobs task.job_id (assign w task)
                      (λ _ _. refl) h.mirrors;
              })
              (persist_task_status-Quiet task.task_id task.job_id (TaskStatus.assigned w)
                m.state_store h.clean)))

  pub schedule_each-IsDurable :
      (tasks : List Task) (m : Master) → IsDurable m → IsDurable (schedule_each env tasks m)
  unfolding schedule_each
  schedule_each-IsDurable [] m h = h
  schedule_each-IsDurable (task ∷ tasks) m h =
      schedule_each-IsDurable tasks (schedule_task env task m) (schedule_task-IsDurable task m h)

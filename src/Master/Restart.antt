-- ===== src/Master/Restart.antt =====
-- What `Master::new` of src/master/mod.rs finds again, while SQLite does not fail.
use mathlib.Core.Path.{subst}
use mathlib.Core.Option.{some-injective, none-ne-some}
use distributed_processing_e.Base.{
  ◌≡◌, refl, sym, ap, ◌∙◌, Option, none, some, List, [], ◌∷◌, Option-cases, Bool-cases, inl, inr,
  All,
}
use distributed_processing_e.Base.Eq.{◌==◌, nat_eq}
use distributed_processing_e.Base.Map.{
  HashMap, get, insert, values, Distinct, get-insert, get-modify,
}
use distributed_processing_e.Config.{Config}
use distributed_processing_e.Master.Durability.{IsDurable, Mirrors, Mirrors-kept, row_of}
use distributed_processing_e.Master.Events.{Event, run}
use distributed_processing_e.Master.Recovery.{
  new, restore_jobs, restore_tasks, restore_task, restored_job, add_task, to_requeue, requeue_all,
}
use distributed_processing_e.Master.State.{Orders, Env, JobState}
use distributed_processing_e.Master.Survival.{run-IsDurable}
use distributed_processing_e.StateStore.{
  StateStore, JobRow, TaskRow, load_all_jobs, load_all_tasks, query,
}
use distributed_processing_e.StateStore.Clean.{
  IsClean, Quiet, Quiet-refl, Quiet-trans, persist_task_status-Quiet,
}
use distributed_processing_e.StateStore.Laws.{IsReferential, HasJob}
use distributed_processing_e.Types.{JobId, TaskId, TaskStatus}

abbrev restored_or : Option JobRow → Option JobState → Option JobState
restored_or none o = o
restored_or (some row) o = some (restored_job row)

-- With no identifier twice, a row is read back as its job.
get-restore_jobs :
    (rows : List (JobId × JobRow)) (jobs : HashMap JobId JobState) (j : JobId)
    → Distinct rows
    → get (restore_jobs rows jobs) j ≡ restored_or (get rows j) (get jobs j)
unfolding restore_jobs get
get-restore_jobs [] jobs j d = refl
get-restore_jobs ((i, row) ∷ rows) jobs j d =
    get-restore_jobs rows (insert jobs i (restored_job row)) j d.1
    ∙ ap (restored_or (get rows j)) (get-insert jobs i (restored_job row) j)
    ∙ elim (Bool-cases (i == j)) [
      | inl same ↦ rw same (
          ap (λ o. restored_or o (some (restored_job row)))
            (ap (get rows) (sym ((nat_eq.same_iff i j).0 same)) ∙ d.0))
      | inr other ↦ rw other
    ]

-- Every row has a job with its dag and its status.
abbrev Finds : HashMap JobId JobRow → HashMap JobId JobState → Type 0
Finds rows jobs =
    (j : JobId) (row : JobRow)
    → get rows j ≡ some row
    → (job : JobState) × (get jobs j ≡ some job) × (row_of job ≡ row)

restore_jobs-Finds :
    (rows : HashMap JobId JobRow) → Distinct rows → Finds rows (restore_jobs rows [])
restore_jobs-Finds rows d j row e =
    (restored_job row, get-restore_jobs rows [] j d ∙ ap (λ o. restored_or o (get [] j)) e, refl)

restore_jobs-Mirrors :
    (rows : HashMap JobId JobRow) → Distinct rows → Mirrors rows (restore_jobs rows [])
unfolding get
restore_jobs-Mirrors rows d =
    (d, λ j job e. back (get rows j) (sym (get-restore_jobs rows [] j d) ∙ e))
  where
    back :
        (o : Option JobRow) {job : JobState} → restored_or o none ≡ some job → o ≡ some (row_of job)
    back none {job} e = absurd (none-ne-some job e)
    back (some row) e = ap (λ (job : JobState). some (row_of job)) (some-injective _ _ e)

-- One task row more.
restore_task-Finds :
    (t : TaskId) (task : TaskRow) (rows : HashMap JobId JobRow) (jobs : HashMap JobId JobState)
    → Finds rows jobs
    → Finds rows (restore_task (t, task) jobs)
unfolding restore_task
restore_task-Finds t task rows jobs h j row e =
    let (job, there, same) = h j row e in
    elim (Bool-cases (task.job_id == j)) [
      | inl own ↦
          let here = ap (get jobs) ((nat_eq.same_iff task.job_id j).0 own) ∙ there in
          (
            add_task t task job,
            rw (here, restore_task)
                (get-modify jobs task.job_id (add_task t task) j ∙ rw (own, there)),
            same,
          )
      | inr other ↦ elim (Option-cases (get jobs task.job_id)) [
        | inl absent ↦ (
          job,
          rw (absent, restore_task) (get-insert jobs task.job_id _ j ∙ rw other there),
          same,
        )
        | inr (owner, found) ↦
            (job, rw (found, restore_task) (get-modify jobs task.job_id _ j ∙ rw other there), same)
      ]
    ]

restore_tasks-Finds :
    (tasks : List (TaskId × TaskRow)) (rows : HashMap JobId JobRow) (jobs : HashMap JobId JobState)
    → Finds rows jobs
    → Finds rows (restore_tasks tasks jobs)
unfolding restore_tasks
restore_tasks-Finds [] rows jobs h = h
restore_tasks-Finds ((t, task) ∷ tasks) rows jobs h =
    restore_tasks-Finds tasks rows (restore_task (t, task) jobs)
      (restore_task-Finds t task rows jobs h)

-- No job is made up where every task row names a job row.
restore_tasks-Mirrors :
    (tasks : List (TaskId × TaskRow)) (rows : HashMap JobId JobRow) (jobs : HashMap JobId JobState)
    → All (HasJob rows) (values tasks)
    → Finds rows jobs
    → Mirrors rows jobs
    → Mirrors rows (restore_tasks tasks jobs)
unfolding restore_tasks restore_task
restore_tasks-Mirrors [] rows jobs named f h = h
restore_tasks-Mirrors ((t, task) ∷ tasks) rows jobs named f h =
    let (row, there) = named.0 in
    let (job, found, _) = f task.job_id row there in
    restore_tasks-Mirrors tasks rows (restore_task (t, task) jobs) named.1
      (restore_task-Finds t task rows jobs f)
      (rw (found, restore_task)
        (Mirrors-kept rows jobs task.job_id (add_task t task) (λ _ _. refl) h))

requeue_all-Quiet :
    (L : List (TaskId × JobId)) (s : StateStore) → IsClean s → Quiet s (requeue_all L s)
unfolding requeue_all
requeue_all-Quiet [] s h = Quiet-refl s h
requeue_all-Quiet ((t, j) ∷ L) s h =
    let first = persist_task_status-Quiet t j TaskStatus.queued s h in
    Quiet-trans s _ _ first (requeue_all-Quiet L _ first.clean)

-- What a new master starts with.
pub new_clean :
    (c : Config) (s : StateStore)
    → IsClean s
    → ((new c s).jobs ≡ restore_tasks s.tables.tasks (restore_jobs s.tables.jobs []))
      × ((new c s).state_store ≡ requeue_all (to_requeue s.tables.tasks) s)
unfolding new load_all_jobs load_all_tasks query
new_clean c s h = (rw h, rw h)

-- What the store's tables must be like at the start; `StateStore.Laws` and the primary keys keep it so.
pub record IsSound (s : StateStore) : Type 0 where
  pub clean : IsClean s
  pub distinct : Distinct s.tables.jobs
  pub referential : IsReferential s.tables

pub new-IsDurable : (c : Config) (s : StateStore) → IsSound s → IsDurable (new c s)
new-IsDurable c s h =
    let (jobs, store) = new_clean c s h.clean in
    let q = requeue_all-Quiet (to_requeue s.tables.tasks) s h.clean in
    record {
      clean = ap (λ (s : StateStore). s.faults) store ∙ q.clean;
      mirrors =
          subst (λ jobs. Mirrors (new c s).state_store.tables.jobs jobs) (sym jobs)
            (subst
              (λ rows. Mirrors rows (restore_tasks s.tables.tasks (restore_jobs s.tables.jobs [])))
              (sym (ap (λ (s : StateStore). s.tables.jobs) store ∙ q.jobs))
              (restore_tasks-Mirrors s.tables.tasks s.tables.jobs (restore_jobs s.tables.jobs [])
                h.referential (restore_jobs-Finds s.tables.jobs h.distinct)
                (restore_jobs-Mirrors s.tables.jobs h.distinct)));
    }

new-Finds :
    (c : Config) (s : StateStore)
    → IsClean s
    → Distinct s.tables.jobs
    → Finds s.tables.jobs (new c s).jobs
new-Finds c s h d = subst (Finds s.tables.jobs) (sym (new_clean c s h).0) (
    restore_tasks-Finds s.tables.tasks s.tables.jobs (restore_jobs s.tables.jobs [])
      (restore_jobs-Finds s.tables.jobs d))

-- While SQLite does not fail: after any run of a master that was started on a sound store, a master
-- that is started on the store it leaves knows each of its jobs, with the same dag and status.
pub new-run :
    (env : Env) (c d : Config) (s : StateStore) (es : List (Orders × Event)) (j : JobId)
    (job : JobState)
    → IsSound s
    → get (run env es (new c s)).jobs j ≡ some job
    → (again : JobState) × (get (new d (run env es (new c s)).state_store).jobs j ≡ some again)
      × (again.dag ≡ job.dag)
      × (again.status ≡ job.status)
new-run env c d s es j job sound there =
    let h = run-IsDurable env es (new c s) (new-IsDurable c s sound) in
    let (again, found, same) =
      new-Finds d (run env es (new c s)).state_store h.clean h.mirrors.0 j (row_of job)
        (h.mirrors.1 j job there) in
    (again, found, ap (λ (row : JobRow). row.dag) same, ap (λ (row : JobRow). row.status) same)

-- ===== src/Master/Restoring.antt =====
-- What `Master::new` of src/master/mod.rs makes of the rows of tasks in the map of jobs.
use mathlib.Core.Path.{subst}
use mathlib.Core.Option.{some-injective, none-ne-some}
use distributed_processing_e.Base.{
  ◌≡◌, ◌≢◌, sym, ap, ◌∙◌, none, some, List, [], ◌∷◌, Option-cases, Bool-cases, inl, inr, arith,
}
use distributed_processing_e.Base.Eq.{◌==◌, nat_eq}
use distributed_processing_e.Base.Map.{
  HashMap, get, Distinct, get-insert, get-insert_self, get-modify, get-modify_self, get-insert_ne,
}
use distributed_processing_e.Master.Recovery.{
  restore_tasks, restore_task, add_task, placeholder, normalized,
}
use distributed_processing_e.Master.State.{JobState}
use distributed_processing_e.StateStore.{TaskRow}
use distributed_processing_e.Types.{JobId, TaskId, TaskStatus}

-- The task is known in its job, with the status.
abbrev pub TaskAt : HashMap JobId JobState → JobId → TaskId → TaskStatus → Type 0
TaskAt jobs j t status =
    (job : JobState) × (get jobs j ≡ some job) × (get job.tasks t ≡ some status)

pub restore_task_self :
    (t : TaskId) (row : TaskRow) (jobs : HashMap JobId JobState)
    → TaskAt (restore_task (t, row) jobs) row.job_id t (normalized row.status)
unfolding restore_task
restore_task_self t row jobs = elim (Option-cases (get jobs row.job_id)) [
  | inl absent ↦ (
    placeholder t row,
    rw (absent, restore_task) (get-insert_self jobs row.job_id (placeholder t row)),
    get-insert_self [] t (normalized row.status),
  )
  | inr (job, there) ↦ (
    add_task t row job,
    rw (there, restore_task) (get-modify_self jobs row.job_id (add_task t row) there),
    get-insert_self job.tasks t (normalized row.status),
  )
]

pub restore_task_other :
    (u : TaskId) (row : TaskRow) (jobs : HashMap JobId JobState) (j : JobId) (t : TaskId)
    (status : TaskStatus)
    → u ≢ t
    → TaskAt jobs j t status
    → TaskAt (restore_task (u, row) jobs) j t status
unfolding restore_task
restore_task_other u row jobs j t status ne (job, there, has) =
    elim (Bool-cases (row.job_id == j)) [
      | inl own ↦
          let here = ap (get jobs) ((nat_eq.same_iff row.job_id j).0 own) ∙ there in
          (
            add_task u row job,
            rw (here, restore_task)
                (get-modify jobs row.job_id (add_task u row) j ∙ rw (own, there)),
            get-insert_ne job.tasks u (normalized row.status) t ne ∙ has,
          )
      | inr other ↦ elim (Option-cases (get jobs row.job_id)) [
        | inl absent ↦
            (job, rw (absent, restore_task) (get-insert jobs row.job_id _ j ∙ rw other there), has)
        | inr (owner, found) ↦
            (job, rw (found, restore_task) (get-modify jobs row.job_id _ j ∙ rw other there), has)
      ]
    ]

pub restore_tasks_later :
    (rows : List (TaskId × TaskRow)) (jobs : HashMap JobId JobState) (j : JobId) (t : TaskId)
    (status : TaskStatus)
    → get rows t ≡ none
    → TaskAt jobs j t status
    → TaskAt (restore_tasks rows jobs) j t status
unfolding restore_tasks get
restore_tasks_later [] jobs j t status gone h = h
restore_tasks_later ((u, row) ∷ rows) jobs j t status gone h = elim (Bool-cases (u == t)) [
  | inl same ↦ absurd (none-ne-some row (sym (rw same at gone)))
  | inr other ↦
      restore_tasks_later rows (restore_task (u, row) jobs) j t status (rw other at gone) (
        restore_task_other u row jobs j t status (λ e. ground (arith, (nat_eq.same_iff u t).1 e)) h)
]

pub restore_tasks_status :
    (rows : List (TaskId × TaskRow)) (jobs : HashMap JobId JobState) (t : TaskId) (row : TaskRow)
    → Distinct rows
    → get rows t ≡ some row
    → TaskAt (restore_tasks rows jobs) row.job_id t (normalized row.status)
unfolding restore_tasks get
restore_tasks_status [] jobs t row d e = absurd (none-ne-some row e)
restore_tasks_status ((u, v) ∷ rows) jobs t row d e = elim (Bool-cases (u == t)) [
  | inl same ↦
      let here = (nat_eq.same_iff u t).0 same in
      let made = some-injective _ _ (rw same at e) in
      restore_tasks_later rows (restore_task (u, v) jobs) row.job_id t (normalized row.status)
        (ap (get rows) (sym here) ∙ d.0)
        (subst (λ row. TaskAt (restore_task (u, v) jobs) row.job_id t (normalized row.status)) made
          (subst (λ t. TaskAt (restore_task (u, v) jobs) v.job_id t (normalized v.status)) here
            (restore_task_self u v jobs)))
  | inr other ↦ restore_tasks_status rows (restore_task (u, v) jobs) t row d.1 (rw other at e)
]

-- ===== src/Master/Requeueing.antt =====
-- What `Master::new` of src/master/mod.rs makes of the tasks that it reads back, while SQLite does
-- not fail.
use mathlib.Core.Path.{subst}
use mathlib.Core.Option.{some-injective, none-ne-some}
use distributed_processing_e.Base.{
  ◌≡◌, refl, sym, ap, ◌∙◌, Bool, true, false, ◌||◌, none, some, List, [], ◌∷◌, Option-cases,
  Bool-cases, inl, inr, any, if◌then◌else◌,
}
use distributed_processing_e.Base.Eq.{◌==◌, nat_eq}
use distributed_processing_e.Base.Map.{get, Distinct, get-insert}
use distributed_processing_e.Base.Outcome.{Outcome}
use distributed_processing_e.Config.{Config}
use distributed_processing_e.Master.Recovery.{
  new, restore_jobs, normalized, to_requeue, requeue_all, in_flight,
}
use distributed_processing_e.Master.Restart.{new_clean}
use distributed_processing_e.Master.State.{JobState}
use distributed_processing_e.StateStore.{
  StateStore, TaskRow, persist_task_status, task_status_statement, upsert_task, run_on,
}
use distributed_processing_e.StateStore.Clean.{IsClean, transact-clean, persist_task_status-Quiet}
use distributed_processing_e.Types.{JobId, TaskId, TaskStatus}
use distributed_processing_e.Master.Restoring.{TaskAt, restore_tasks_status}

-- The row of a task that is put back into the queue.
abbrev requeued : Bool → TaskRow → TaskRow
requeued b row = record row { status = if b then TaskStatus.queued else row.status }

requeue_one :
    (k : TaskId) (j : JobId) (s : StateStore) (t : TaskId) (row : TaskRow)
    → IsClean s
    → get s.tables.tasks t ≡ some row
    → get (persist_task_status k j TaskStatus.queued s).1.tables.tasks t
      ≡ some (requeued (k == t) row)
unfolding persist_task_status
requeue_one k j s t row h there =
    ap (λ (p : Outcome (Unit {0}) × StateStore). get p.1.tables.tasks t)
      (transact-clean (task_status_statement k j TaskStatus.queued) s h)
    ∙ elim (Option-cases (get s.tables.tasks k)) [
      | inr (old, found) ↦
          rw (found, task_status_statement, upsert_task, run_on)
            (get-insert s.tables.tasks k (record old { status = TaskStatus.queued }) t
              ∙ written old found)
      | inl absent ↦ elim (Option-cases (get s.tables.jobs j)) [
        | inl orphan ↦
            rw (absent, orphan, task_status_statement, upsert_task, run_on)
              (there ∙ ap (λ b. some (requeued b row)) (sym (fresh absent)))
        | inr (job, named) ↦
            rw (absent, named, task_status_statement, upsert_task, run_on)
              (get-insert s.tables.tasks k _ t ∙ rw (fresh absent) there)
      ]
    ]
  where
    fresh : get s.tables.tasks k ≡ none → (k == t) ≡ false
    fresh absent = elim (Bool-cases (k == t)) [
      | inr other ↦ other
      | inl same ↦ absurd (
          none-ne-some row
            (sym absent ∙ ap (get s.tables.tasks) ((nat_eq.same_iff k t).0 same) ∙ there))
    ]

    written :
        (old : TaskRow)
        → get s.tables.tasks k ≡ some old
        → (if k == t
            then some (record old { status = TaskStatus.queued })
            else get s.tables.tasks t)
          ≡ some (requeued (k == t) row)
    written old found = elim (Bool-cases (k == t)) [
      | inl same ↦ rw same (
          ap (λ (row : TaskRow). some (record row { status = TaskStatus.queued }))
            (some-injective _ _
              (sym found ∙ ap (get s.tables.tasks) ((nat_eq.same_iff k t).0 same) ∙ there)))
      | inr other ↦ rw other there
    ]

-- The task stands in the list.
abbrev listed : TaskId → List (TaskId × JobId) → Bool
listed t L = any (λ (p : TaskId × JobId). p.0 == t) L

requeue_all_status :
    (L : List (TaskId × JobId)) (s : StateStore) (t : TaskId) (row : TaskRow)
    → IsClean s
    → get s.tables.tasks t ≡ some row
    → get (requeue_all L s).tables.tasks t ≡ some (requeued (listed t L) row)
unfolding requeue_all
requeue_all_status [] s t row h there = there
requeue_all_status ((k, j) ∷ L) s t row h there =
    requeue_all_status L (persist_task_status k j TaskStatus.queued s).1 t (requeued (k == t) row)
      (persist_task_status-Quiet k j TaskStatus.queued s h).clean (requeue_one k j s t row h there)
    ∙ ap (λ (row : TaskRow). some row) (twice (k == t) (listed t L))
  where
    twice : (a b : Bool) → requeued b (requeued a row) ≡ requeued (a || b) row
    twice true true = refl
    twice true false = refl
    twice false b = refl

listed-to_requeue-none :
    (rows : List (TaskId × TaskRow)) (t : TaskId)
    → get rows t ≡ none
    → listed t (to_requeue rows) ≡ false
unfolding to_requeue get
listed-to_requeue-none [] t e = refl
listed-to_requeue-none ((u, v) ∷ rows) t e = elim (Bool-cases (u == t)) [
  | inl same ↦ absurd (none-ne-some v (sym (rw same at e)))
  | inr other ↦
      let rest = listed-to_requeue-none rows t (rw other at e) in
      elim (Bool-cases (in_flight v.status)) [
        | inl flying ↦ rw (flying, other) rest
        | inr landed ↦ rw landed rest
      ]
]

listed-to_requeue :
    (rows : List (TaskId × TaskRow)) (t : TaskId) (row : TaskRow)
    → Distinct rows
    → get rows t ≡ some row
    → listed t (to_requeue rows) ≡ in_flight row.status
unfolding to_requeue get
listed-to_requeue [] t row d e = absurd (none-ne-some row e)
listed-to_requeue ((u, v) ∷ rows) t row d e = elim (Bool-cases (u == t)) [
  | inl same ↦
      let made = some-injective v row (rw same at e) in
      let rest =
        listed-to_requeue-none rows t (ap (get rows) (sym ((nat_eq.same_iff u t).0 same)) ∙ d.0) in
      elim (Bool-cases (in_flight v.status)) [
        | inl flying ↦
            rw (flying, same) (sym flying ∙ ap (λ (r : TaskRow). in_flight r.status) made)
        | inr landed ↦ rw landed (rest ∙ sym landed ∙ ap (λ (r : TaskRow). in_flight r.status) made)
      ]
  | inr other ↦
      let rest = listed-to_requeue rows t row d.1 (rw other at e) in
      elim (Bool-cases (in_flight v.status)) [
        | inl flying ↦ rw (flying, other) rest
        | inr landed ↦ rw landed rest
      ]
]

requeued-normalized :
    (row : TaskRow)
    → requeued (in_flight row.status) row ≡ record row { status = normalized row.status }
requeued-normalized row = ap (λ status. record row { status = status }) (go row.status)
  where
    go : (st : TaskStatus) → (if in_flight st then TaskStatus.queued else st) ≡ normalized st
    go TaskStatus.queued = refl
    go (TaskStatus.assigned w) = refl
    go (TaskStatus.running w) = refl
    go TaskStatus.completed = refl
    go (TaskStatus.failed msg) = refl
    go (TaskStatus.retrying n) = refl

-- While SQLite does not fail: a new master knows every stored task, and it has the same status in the
-- job of the master and in the row that the store is left with: queued where it was assigned or
-- running, and the stored one otherwise.
pub new_tasks :
    (c : Config) (s : StateStore) (t : TaskId) (row : TaskRow)
    → IsClean s
    → Distinct s.tables.tasks
    → get s.tables.tasks t ≡ some row
    → ((job : JobState) × (get (new c s).jobs row.job_id ≡ some job)
        × (get job.tasks t ≡ some (normalized row.status)))
      × (get (new c s).state_store.tables.tasks t
          ≡ some (record row { status = normalized row.status }))
new_tasks c s t row h d there = (
  subst (λ jobs. TaskAt jobs row.job_id t (normalized row.status)) (sym (new_clean c s h).0)
      (restore_tasks_status s.tables.tasks (restore_jobs s.tables.jobs []) t row d there),
  ap (λ (s : StateStore). get s.tables.tasks t) (new_clean c s h).1
      ∙ requeue_all_status (to_requeue s.tables.tasks) s t row h there
      ∙ ap (λ b. some (requeued b row)) (listed-to_requeue s.tables.tasks t row d there)
      ∙ ap (λ (row : TaskRow). some row) (requeued-normalized row),
)

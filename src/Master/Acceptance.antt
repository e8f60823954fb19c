-- ===== src/Master/Acceptance.antt =====
-- When `submit_job` of src/master/mod.rs takes a job, and what a refused job leaves behind.
use mathlib.Core.Path.{subst}
use distributed_processing_e.Base.{◌≡◌, refl, sym, ap, ◌∙◌, none, some, List, [], ◌∷◌, String}
use distributed_processing_e.Base.Eq.{nat_eq}
use distributed_processing_e.Base.Floats.{f32_zero}
use distributed_processing_e.Base.Map.{get, insert, get-insert_self}
use distributed_processing_e.Base.Outcome.{Outcome, ok, err}
use distributed_processing_e.Dag.{materialize_tasks, validate}
use distributed_processing_e.Master.Durability.{
  IsDurable, Mirrors, Mirrors-insert, schedule_each-IsDurable,
}
use distributed_processing_e.Master.State.{Env, Master}
use distributed_processing_e.Master.Submission.{
  submit_job, submit_checked, after_tasks, initial_job, persist_submission, persist_queued,
  and_then,
}
use distributed_processing_e.Spec.{DagSpecification}
use distributed_processing_e.StateStore.{StateStore, JobRow, persist_task_status}
use distributed_processing_e.StateStore.Clean.{
  IsClean, Quiet, Quiet-refl, Quiet-trans, persist_task_status-Quiet, persist_job_status-Quiet,
  persist_job_clean, persist_task_status_ok,
}
use distributed_processing_e.Types.{JobId, JobStatus, TaskStatus, Task}

-- What a write that is done leaves.
record Done (s : StateStore) (p : Outcome (Unit {0}) × StateStore) : Type 0 where
  done : p.0 ≡ ok tt
  quiet : Quiet s p.1

and_then-Done :
    (p : Outcome (Unit {0}) × StateStore) (f : StateStore → Outcome (Unit {0}) × StateStore)
    (s : StateStore)
    → p.0 ≡ ok tt
    → Done s (f p.1)
    → Done s (and_then p f)
and_then-Done (ok _, t) f s e h = h
and_then-Done (err msg, t) f s e h = absurd (clash e)
  where
    clash : ◌≡◌ {A = Outcome (Unit {0})} (err msg) (ok tt) → ⊥
    clash e = cc

persist_queued-Done :
    (j : JobId) (tasks : List Task) (s : StateStore) (row : JobRow)
    → IsClean s
    → get s.tables.jobs j ≡ some row
    → Done s (persist_queued j tasks s)
unfolding persist_queued
persist_queued-Done j [] s row h there = record { done = refl; quiet = Quiet-refl s h }
persist_queued-Done j (task ∷ tasks) s row h there =
    let first = persist_task_status-Quiet task.task_id j TaskStatus.queued s h in
    let rest =
      persist_queued-Done j tasks (persist_task_status task.task_id j TaskStatus.queued s).1 row
        first.clean (ap (λ rows. get rows j) first.jobs ∙ there) in
    and_then-Done (persist_task_status task.task_id j TaskStatus.queued s) (persist_queued j tasks)
      s (persist_task_status_ok task.task_id j TaskStatus.queued s row h there)
      (record { done = rest.done; quiet = Quiet-trans s _ _ first rest.quiet })

-- The store with the row of a new job.
abbrev with_row : JobId → DagSpecification → StateStore → StateStore
with_row j dag s = record s {
  tables = record s.tables {
    jobs = insert s.tables.jobs j (record { status = JobStatus.accepted; dag = dag });
  };
}

persist_submission-Done :
    (j : JobId) (dag : DagSpecification) (tasks : List Task) (s : StateStore)
    → IsClean s
    → Done (with_row j dag s) (persist_submission j dag tasks s)
unfolding persist_submission
persist_submission-Done j dag tasks s h =
    subst (λ p. Done (with_row j dag s) (and_then p (persist_queued j tasks)))
      (sym (persist_job_clean j dag JobStatus.accepted s h))
      (persist_queued-Done j tasks (with_row j dag s) _ h
        (get-insert_self s.tables.jobs j (record { status = JobStatus.accepted; dag = dag })))

module _ (env : Env) (j : JobId) (dag : DagSpecification) (m : Master) where
  abbrev tasks : List Task
  tasks = materialize_tasks (env.iter 1) env.new_v5 dag j

  abbrev stored : Outcome (Unit {0}) × StateStore
  stored = persist_submission j dag tasks m.state_store

  -- While SQLite does not fail, a job is taken exactly where its dag is valid, and a dag that is not
  -- is refused with the validator's message: the foreign key of a task row is always satisfied.
  pub submit_job_verdict :
      IsClean m.state_store
      → ((validate dag ≡ ok tt) → (submit_job env j dag m).0 ≡ ok j)
        × ((e : String) → validate dag ≡ err e → submit_job env j dag m ≡ (err e, m))
  unfolding submit_job
  submit_job_verdict clean = (
    (λ valid.
        ap (λ r. (submit_checked env r j dag m).0) valid
        ∙ taken stored (persist_submission-Done j dag tasks m.state_store clean).done),
    (λ e invalid. ap (λ r. submit_checked env r j dag m) invalid),
  )
    where
      taken :
          (p : Outcome (Unit {0}) × StateStore)
          → p.0 ≡ ok tt
          → (after_tasks env j (initial_job env dag tasks) tasks p m).0 ≡ ok j
      taken (ok _, s) e = refl
      taken (err msg, s) e = cc

  -- Whatever makes a submission fail, the master keeps its jobs, its workers and its scheduler, and
  -- sends nothing.
  pub submit_job_refused :
      (e : String)
      → (submit_job env j dag m).0 ≡ err e
      → (submit_job env j dag m).1
        ≡ record m { state_store = (submit_job env j dag m).1.state_store }
  unfolding submit_job
  submit_job_refused e = checked (validate dag)
    where
      after :
          (p : Outcome (Unit {0}) × StateStore)
          → (after_tasks env j (initial_job env dag tasks) tasks p m).0 ≡ err e
          → (after_tasks env j (initial_job env dag tasks) tasks p m).1 ≡ record m {
            state_store = (after_tasks env j (initial_job env dag tasks) tasks p m).1.state_store;
          }
      after (ok _, s) h = cc
      after (err msg, s) h = refl

      checked :
          (r : Outcome (Unit {0}))
          → (submit_checked env r j dag m).0 ≡ err e
          → (submit_checked env r j dag m).1
            ≡ record m { state_store = (submit_checked env r j dag m).1.state_store }
      checked (err msg) h = refl
      checked (ok _) h = after stored h

  pub submit_job-IsDurable : IsDurable m → IsDurable (submit_job env j dag m).1
  unfolding submit_job initial_job
  submit_job-IsDurable h = checked (validate dag)
    where
      after :
          (p : Outcome (Unit {0}) × StateStore)
          → Done (with_row j dag m.state_store) p
          → IsDurable (after_tasks env j (initial_job env dag tasks) tasks p m).1
      after (err msg, s) d = absurd (clash d.done)
        where
          clash : ◌≡◌ {A = Outcome (Unit {0})} (err msg) (ok tt) → ⊥
          clash e = cc
      after (ok _, s) d =
          let job = initial_job env dag tasks in
          let q =
            persist_job_status-Quiet j JobStatus.accepted f32_zero job.metrics none [] s
              d.quiet.clean in
          schedule_each-IsDurable env tasks _ (record {
            clean = q.clean;
            mirrors =
                subst (λ rows. Mirrors rows (insert m.jobs j job)) (sym (q.jobs ∙ d.quiet.jobs))
                  (Mirrors-insert m.state_store.tables.jobs m.jobs j job h.mirrors);
          })

      checked : (r : Outcome (Unit {0})) → IsDurable (submit_checked env r j dag m).1
      checked (err e) = h
      checked (ok _) = after stored (persist_submission-Done j dag tasks m.state_store h.clean)

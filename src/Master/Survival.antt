-- ===== src/Master/Survival.antt =====
-- That no step of the master lets its jobs and the job rows of the state store come apart, and that
-- a new master finds them again, while SQLite does not fail.
use mathlib.Core.Path.{subst}
use distributed_processing_e.Base.{
  ℕ, zero, suc, ◌≡◌, refl, sym, ap, ◌∙◌, Option, none, some, List, [], ◌∷◌, String, Option-cases,
  Bool-cases, inl, inr,
}
use distributed_processing_e.Base.Eq.{nat_eq}
use distributed_processing_e.Base.Map.{get}
use distributed_processing_e.Base.Outcome.{Outcome, ok, err}
use distributed_processing_e.Master.Acceptance.{submit_job-IsDurable}
use distributed_processing_e.Master.Completion.{
  complete_task, finish_report, note_status, note_failed, note_completed, settle_report, settle,
  unfinished, persist_success, persist_failure, persist_progress, credit, credit_success,
  credit_failure, worker_of,
}
use distributed_processing_e.Master.Durability.{
  IsDurable, Mirrors-kept, row_of, with_store-IsDurable, put_job-IsDurable, persist_job-IsClean,
  schedule_each-IsDurable,
}
use distributed_processing_e.Master.Events.{
  Event, submits, reports, registers, beats, sweeps, schedules, step, run,
}
use distributed_processing_e.Master.Scheduling.{schedule_all_queued_tasks, queued_tasks_snapshot}
use distributed_processing_e.Master.State.{
  Orders, with_orders, Env, JobState, Master, put_job, with_store,
}
use distributed_processing_e.Master.Workers.{
  run_spawned, register_worker, handle_heartbeat, garbage_collect_workers, run_background,
}
use distributed_processing_e.StateStore.{StateStore, JobRow, persist_task_result, persist_job}
use distributed_processing_e.StateStore.Clean.{
  Quiet, Quiet-trans, persist_task_result-Quiet, persist_job_status-Quiet,
  persist_worker_metrics-Quiet,
}
use distributed_processing_e.Types.{
  WorkerId, WorkerAggregate, JobStatus, TaskStatus, TaskResult, WorkerStatus, completed, queued,
  assigned, running, retrying,
}

-- Credits to workers have no place in a job's row.
credit-row :
    (o : Option WorkerId) (f : WorkerId → List WorkerAggregate → List WorkerAggregate)
    (job : JobState)
    → row_of (credit o f job) ≡ row_of job
credit-row none f job = refl
credit-row (some w) f job = refl

note_completed-row :
    (r : TaskResult) (job : JobState) → row_of (note_completed r (note_status r job)) ≡ row_of job
unfolding note_completed note_status
note_completed-row r job =
    credit-row (worker_of (get (note_status r job).tasks r.task_id)) (credit_success r) _

note_failed-status :
    (r : TaskResult) (e : Option String) (job : JobState)
    → (note_failed r e job).status ≡ JobStatus.failed
unfolding note_failed
note_failed-status r e job =
    ap (λ (row : JobRow). row.status)
      (credit-row (worker_of (get job.tasks r.task_id)) credit_failure _)

module _ (env : Env) (r : TaskResult) (m : Master) (job : JobState)
    (there : get m.jobs r.job_id ≡ some job) (h : IsDurable m) where
  -- The job of the report is written in memory alone, with a quiet write to the store.
  kept :
      (job' : JobState) (s : StateStore)
      → row_of job' ≡ row_of job
      → Quiet m.state_store s
      → IsDurable (with_store (put_job m r.job_id job') s)
  kept job' s same q =
      with_store-IsDurable (put_job m r.job_id job') s
        (record {
          clean = h.clean;
          mirrors =
              Mirrors-kept m.state_store.tables.jobs m.jobs r.job_id (λ _. job')
                (λ old found. same ∙ ap row_of (some_inj (sym there ∙ found))) h.mirrors;
        })
        q
    where
      some_inj : {a b : JobState} → some a ≡ some b → a ≡ b
      some_inj e = cc

  -- It is written to its row as well.
  rewritten :
      (job' : JobState) (status : JobStatus) (s t : StateStore)
      → job'.status ≡ status
      → Quiet m.state_store t
      → Quiet (persist_job r.job_id job'.dag status t).1 s
      → IsDurable (with_store (put_job m r.job_id job') s)
  rewritten job' status s t e q p =
      put_job-IsDurable (with_store m t) r.job_id job' s (with_store-IsDurable m t h q)
        (subst (λ st. Quiet (persist_job r.job_id job'.dag st t).1 s) (sym e) p)

  settle-IsDurable :
      (s : StateStore)
      → Quiet m.state_store s
      → (let p = settle env r.job_id (note_completed r (note_status r job)) s in
          IsDurable (with_store (put_job m r.job_id p.0) p.1))
  unfolding persist_progress persist_success
  settle-IsDurable s q =
      let job' = note_completed r (note_status r job) in
      elim (Bool-cases (unfinished job')) [
        | inl left ↦ rw left (
            kept job' _ (note_completed-row r job) (
              Quiet-trans m.state_store s _ q
                (persist_job_status-Quiet r.job_id _ _ _ _ _ s q.clean)))
        | inr done ↦ rw done (
            rewritten (record job' { status = JobStatus.succeeded }) JobStatus.succeeded _ s refl q
              (persist_job_status-Quiet r.job_id _ _ _ _ _ _
                (persist_job-IsClean r.job_id job'.dag JobStatus.succeeded s q.clean)))
      ]

  settle_report-IsDurable :
      (st : TaskStatus) (s : StateStore)
      → Quiet m.state_store s
      → (let p = settle_report env st r (note_status r job) s in
          IsDurable (with_store (put_job m r.job_id p.0) p.1))
  unfolding settle_report persist_failure note_status
  settle_report-IsDurable completed s q = settle-IsDurable s q
  settle_report-IsDurable (TaskStatus.failed msg) s q =
      let job' = note_failed r (some msg) (note_status r job) in
      rewritten job' JobStatus.failed _ s (note_failed-status r (some msg) (note_status r job)) q (
        persist_job_status-Quiet r.job_id _ _ _ _ _ _
          (persist_job-IsClean r.job_id job'.dag JobStatus.failed s q.clean))
  settle_report-IsDurable queued s q = kept _ s refl q
  settle_report-IsDurable (assigned w) s q = kept _ s refl q
  settle_report-IsDurable (running w) s q = kept _ s refl q
  settle_report-IsDurable (retrying n) s q = kept _ s refl q

  finish_report-IsDurable :
      (p : Outcome (Unit {0}) × StateStore)
      → Quiet m.state_store p.1
      → IsDurable (finish_report env r (note_status r job) p m).1
  unfolding note_status
  finish_report-IsDurable (err e, s) q = kept _ s refl q
  finish_report-IsDurable (ok _, s) q = settle_report-IsDurable r.status s q

module _ (env : Env) where
  complete_task-IsDurable :
      (r : TaskResult) (m : Master) → IsDurable m → IsDurable (complete_task env r m).1
  unfolding complete_task
  complete_task-IsDurable r m h = elim (Option-cases (get m.jobs r.job_id)) [
    | inl absent ↦ rw (absent, complete_task) h
    | inr (job, there) ↦
        rw (there, complete_task)
          (finish_report-IsDurable env r m job there h (persist_task_result r m.state_store)
            (persist_task_result-Quiet r m.state_store h.clean))
  ]

  step-IsDurable : (e : Event) (m : Master) → IsDurable m → IsDurable (step env e m)
  unfolding step register_worker handle_heartbeat garbage_collect_workers run_background
      schedule_all_queued_tasks
  step-IsDurable (submits j dag) m h = submit_job-IsDurable env j dag m h
  step-IsDurable (reports r) m h = complete_task-IsDurable r m h
  step-IsDurable (registers info) m h = record { clean = h.clean; mirrors = h.mirrors }
  step-IsDurable (beats now hb) m h =
      let d = with_store-IsDurable m _ h (
        persist_worker_metrics-Quiet now hb.worker_id WorkerStatus.active hb.metrics m.state_store
          h.clean) in
      record { clean = d.clean; mirrors = d.mirrors }
  step-IsDurable (sweeps now) m h = record { clean = h.clean; mirrors = h.mirrors }
  step-IsDurable schedules m h = background m.spawned
    where
      background : (n : ℕ) → IsDurable (run_spawned env n m)
      background zero = h
      background (suc n) =
          schedule_each-IsDurable env (queued_tasks_snapshot env (record m { spawned = n }))
            (record m { spawned = n }) (record { clean = h.clean; mirrors = h.mirrors })

module _ (env : Env) where
  -- While SQLite does not fail, any run keeps the job rows of the store in step with the master's
  -- jobs: every job has exactly one row, with its dag and its status.
  pub run-IsDurable :
      (es : List (Orders × Event)) (m : Master) → IsDurable m → IsDurable (run env es m)
  unfolding run
  run-IsDurable [] m h = h
  run-IsDurable ((orders, e) ∷ es) m h =
      run-IsDurable es (step (with_orders env orders) e m)
        (step-IsDurable (with_orders env orders) e m h)

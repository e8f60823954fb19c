-- ===== src/Master/Invariant.antt =====
-- A rule for facts about single jobs: what every handler keeps for the job that it changes holds of
-- every job after any run.
use mathlib.Core.Path.{subst}
use distributed_processing_e.Base.{
  ℕ, zero, suc, ◌≡◌, ap, ◌∙◌, Option, none, some, List, [], ◌∷◌, arith, Bool-cases, Option-cases,
  inl, inr,
}
use distributed_processing_e.Base.Eq.{nat_eq}
use distributed_processing_e.Base.Map.{HashMap, get, insert, modify, insert_cases, modify_cases}
use distributed_processing_e.Base.Outcome.{Outcome, ok, err}
use distributed_processing_e.Dag.{materialize_tasks, validate}
use distributed_processing_e.Master.Completion.{
  complete_task, finish_report, note_status, settle_report,
}
use distributed_processing_e.Master.Events.{
  Event, submits, reports, registers, beats, sweeps, schedules, step, run,
}
use distributed_processing_e.Master.Scheduling.{
  assign, schedule_on, persist_assignment, schedule_task, mark_running, persist_running, dispatch,
  schedule_each, schedule_all_queued_tasks, queued_tasks_snapshot,
}
use distributed_processing_e.Master.State.{Env, Orders, with_orders, JobState, Master, is_running}
use distributed_processing_e.Master.Submission.{
  submit_job, submit_checked, after_tasks, initial_job, persist_submission,
}
use distributed_processing_e.Master.Workers.{
  run_spawned, register_worker, handle_heartbeat, garbage_collect_workers, run_background,
}
use distributed_processing_e.Scheduler.{RoundRobinScheduler, select_worker}
use distributed_processing_e.Spec.{DagSpecification}
use distributed_processing_e.StateStore.{StateStore, persist_task_result}
use distributed_processing_e.Types.{JobId, WorkerId, Task, TaskResult, running}

abbrev pub AllJobs : (JobState → Type 0) → HashMap JobId JobState → Type 0
AllJobs P jobs = (j : JobId) (job : JobState) → get jobs j ≡ some job → P job

-- What to show of a fact about a job.
pub record Rule (env : Env) (P : JobState → Type 0) : Type 0 where
  pub starts : (dag : DagSpecification) (tasks : List Task) → P (initial_job env dag tasks)
  pub assigns : (w : WorkerId) (task : Task) (job : JobState) → P job → P (assign w task job)
  pub runs : (job : JobState) → P job → P (record job { status = running })
  pub notes : (r : TaskResult) (job : JobState) → P job → P (note_status r job)
  pub settles :
      (r : TaskResult) (job : JobState) (s : StateStore)
      → P (note_status r job)
      → P (settle_report env r.status r (note_status r job) s).0

-- What to show of a fact about the map of jobs: that the writes to it keep it.
pub record MapRule (env : Env) (Q : HashMap JobId JobState → Type 0) : Type 0 where
  pub starts :
      (jobs : HashMap JobId JobState) (j : JobId) (dag : DagSpecification) (tasks : List Task)
      → Q jobs
      → Q (insert jobs j (initial_job env dag tasks))
  pub assigns :
      (jobs : HashMap JobId JobState) (j : JobId) (w : WorkerId) (task : Task)
      → Q jobs
      → Q (modify jobs j (assign w task))
  pub runs :
      (jobs : HashMap JobId JobState) (j : JobId) (job : JobState)
      → get jobs j ≡ some job
      → Q jobs
      → Q (modify jobs j (λ _. record job { status = running }))
  pub notes :
      (jobs : HashMap JobId JobState) (r : TaskResult) (job : JobState)
      → get jobs r.job_id ≡ some job
      → Q jobs
      → Q (modify jobs r.job_id (λ _. note_status r job))
  pub settles :
      (jobs : HashMap JobId JobState) (r : TaskResult) (job : JobState) (s : StateStore)
      → get jobs r.job_id ≡ some job
      → Q jobs
      → Q (modify jobs r.job_id (λ _. (settle_report env r.status r (note_status r job) s).0))

module _ {P : JobState → Type 0} where
  pub AllJobs-insert :
      (jobs : HashMap JobId JobState) (k : JobId) (job : JobState)
      → P job
      → AllJobs P jobs
      → AllJobs P (insert jobs k job)
  AllJobs-insert jobs k job p h j found e = elim (insert_cases jobs k job j e) [
    | inl (same, made) ↦ subst P made p
    | inr old ↦ h j found old
  ]

  pub AllJobs-modify :
      (jobs : HashMap JobId JobState) (k : JobId) (f : JobState → JobState)
      → ((job : JobState) → get jobs k ≡ some job → P (f job))
      → AllJobs P jobs
      → AllJobs P (modify jobs k f)
  AllJobs-modify jobs k f keeps h j found e =
      let (old, there, how) = modify_cases jobs k f j e in
      elim how [
        | inl (same, made) ↦ subst P made (keeps old (ap (get jobs) same ∙ there))
        | inr kept ↦ subst P kept (h j old there)
      ]

pub jobs-dispatch : (w : WorkerId) (task : Task) (m : Master) → (dispatch w task m).jobs ≡ m.jobs
unfolding dispatch
jobs-dispatch w task m = ground arith

module _ (env : Env) {Q : HashMap JobId JobState → Type 0} (rule : MapRule env Q) where
  open rule use {starts, assigns, runs, notes, settles}

  mark_running-keeps : (j : JobId) (m : Master) → Q m.jobs → Q (mark_running env j m).jobs
  unfolding mark_running persist_running
  mark_running-keeps j m h = elim (Option-cases (get m.jobs j)) [
    | inl absent ↦ rw (absent, mark_running) h
    | inr (job, there) ↦ elim (Bool-cases (is_running job.status)) [
      | inl already ↦ rw (there, mark_running, already) h
      | inr not_yet ↦ rw (there, mark_running, not_yet) (runs m.jobs j job there h)
    ]
  ]

  schedule_task-keeps : (task : Task) (m : Master) → Q m.jobs → Q (schedule_task env task m).jobs
  unfolding schedule_task
  schedule_task-keeps task m h = go (select_worker env.floats m.scheduler m.registry)
    where
      go :
          (p : Option WorkerId × RoundRobinScheduler)
          → Q (schedule_on env p.0 task (record m { scheduler = p.1 })).jobs
      go (none, s) = h
      go (some w, s) = rw jobs-dispatch (
          mark_running-keeps task.job_id
            (persist_assignment w task
              (record m { scheduler = s; jobs = modify m.jobs task.job_id (assign w task) }))
            (assigns m.jobs task.job_id w task h))

  pub schedule_each-keeps :
      (tasks : List Task) (m : Master) → Q m.jobs → Q (schedule_each env tasks m).jobs
  unfolding schedule_each
  schedule_each-keeps [] m h = h
  schedule_each-keeps (task ∷ tasks) m h =
      schedule_each-keeps tasks (schedule_task env task m) (schedule_task-keeps task m h)

  submit_job-keeps :
      (j : JobId) (dag : DagSpecification) (m : Master)
      → Q m.jobs
      → Q (submit_job env j dag m).1.jobs
  unfolding submit_job
  submit_job-keeps j dag m h = checked (validate dag)
    where
      tasks : List Task
      tasks = materialize_tasks (env.iter 1) env.new_v5 dag j

      stored :
          (p : Outcome (Unit {0}) × StateStore)
          → Q (after_tasks env j (initial_job env dag tasks) tasks p m).1.jobs
      stored (err e, s) = h
      stored (ok _, s) = schedule_each-keeps tasks _ (starts m.jobs j dag tasks h)

      checked : (r : Outcome (Unit {0})) → Q (submit_checked env r j dag m).1.jobs
      checked (err e) = h
      checked (ok _) = stored (persist_submission j dag tasks m.state_store)

  complete_task-keeps : (r : TaskResult) (m : Master) → Q m.jobs → Q (complete_task env r m).1.jobs
  unfolding complete_task
  complete_task-keeps r m h = elim (Option-cases (get m.jobs r.job_id)) [
    | inl absent ↦ rw (absent, complete_task) h
    | inr (job, there) ↦
        rw (there, complete_task) (written job there (persist_task_result r m.state_store))
  ]
    where
      written :
          (job : JobState)
          → get m.jobs r.job_id ≡ some job
          → (p : Outcome (Unit {0}) × StateStore)
          → Q (finish_report env r (note_status r job) p m).1.jobs
      written job p (err e, s) = notes m.jobs r job p h
      written job p (ok _, s) = settles m.jobs r job s p h

  step-keeps : (e : Event) (m : Master) → Q m.jobs → Q (step env e m).jobs
  unfolding step register_worker handle_heartbeat garbage_collect_workers run_background
      schedule_all_queued_tasks
  step-keeps (submits j dag) m h = submit_job-keeps j dag m h
  step-keeps (reports r) m h = complete_task-keeps r m h
  step-keeps (registers info) m h = h
  step-keeps (beats now hb) m h = h
  step-keeps (sweeps now) m h = h
  step-keeps schedules m h = background m.spawned
    where
      background : (n : ℕ) → Q (run_spawned env n m).jobs
      background zero = h
      background (suc n) =
          schedule_each-keeps (queued_tasks_snapshot env (record m { spawned = n }))
            (record m { spawned = n }) h

module _ (env : Env) {Q : HashMap JobId JobState → Type 0}
    (rule : (orders : Orders) → MapRule (with_orders env orders) Q) where
  -- What a rule covers holds after any run.
  pub run-keeps : (es : List (Orders × Event)) (m : Master) → Q m.jobs → Q (run env es m).jobs
  unfolding run
  run-keeps [] m h = h
  run-keeps ((orders, e) ∷ es) m h =
      run-keeps es (step (with_orders env orders) e m)
        (step-keeps (with_orders env orders) (rule orders) e m h)

module _ (env : Env) {P : JobState → Type 0} (rule : Rule env P) where
  open rule use {starts, assigns, runs, notes, settles}

  map_rule : MapRule env (AllJobs P)
  map_rule = record {
    starts = λ jobs j dag tasks h.
        AllJobs-insert jobs j (initial_job env dag tasks) (starts dag tasks) h;
    assigns = λ jobs j w task h.
        AllJobs-modify jobs j (assign w task) (λ job there. assigns w task job (h j job there)) h;
    runs = λ jobs j job there h. AllJobs-modify jobs j _ (λ _ _. runs job (h j job there)) h;
    notes = λ jobs r job there h.
        AllJobs-modify jobs r.job_id _ (λ _ _. notes r job (h r.job_id job there)) h;
    settles = λ jobs r job s there h.
        AllJobs-modify jobs r.job_id _ (λ _ _. settles r job s (notes r job (h r.job_id job there)))
          h;
  }

-- What a rule covers holds of every job after any run.
pub run-AllJobs :
    (env : Env) {P : JobState → Type 0}
    → ((orders : Orders) → Rule (with_orders env orders) P)
    → (es : List (Orders × Event)) (m : Master) → AllJobs P m.jobs
    → AllJobs P (run env es m).jobs
run-AllJobs env rule = run-keeps env (λ orders. map_rule (with_orders env orders) (rule orders))

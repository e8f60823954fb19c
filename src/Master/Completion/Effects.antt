-- ===== src/Master/Completion/Effects.antt =====
-- What a report does to the job that it is about, and to nothing else.
use distributed_processing_e.Base.{
  ◌≡◌, ◌≢◌, refl, ap, ◌∙◌, Option, none, some, [], ◌∷◌, ◌++◌, Option-cases, inl, inr, String,
}
use distributed_processing_e.Base.Eq.{nat_eq}
use distributed_processing_e.Base.Map.{get, insert, get-insert_self, get-modify_self, get-modify_ne}
use distributed_processing_e.Base.Outcome.{Outcome, ok, err}
use distributed_processing_e.Base.Words.{add_usize, saturating_sub}
use distributed_processing_e.Master.Completion.{
  complete_task, finish_report, note_status, note_completed, note_failed, settle_report, settle,
  bump_stage, worker_of,
}
use distributed_processing_e.Master.State.{Env, JobState, Master}
use distributed_processing_e.StateStore.{StateStore, persist_task_result}
use distributed_processing_e.Types.{JobId, JobStatus, TaskStatus, TaskResult, completed}

-- The state in which the report's row is written, and what comes back.
abbrev pub written : TaskResult → Master → Outcome (Unit {0}) × StateStore
written r m = persist_task_result r m.state_store

module _ (env : Env) (r : TaskResult) (m : Master) where
  -- Only the job of the report changes.
  complete_task_other :
      (j : JobId) → r.job_id ≢ j → get (complete_task env r m).1.jobs j ≡ get m.jobs j
  unfolding complete_task
  complete_task_other j h = elim (Option-cases (get m.jobs r.job_id)) [
    | inl absent ↦ rw (absent, complete_task)
    | inr (job, there) ↦ rw (there, complete_task) (finished (note_status r job) (written r m))
  ]
    where
      finished :
          (job : JobState) (p : Outcome (Unit {0}) × StateStore)
          → get (finish_report env r job p m).1.jobs j ≡ get m.jobs j
      finished job (err e, s) = get-modify_ne m.jobs r.job_id _ j h
      finished job (ok _, s) = get-modify_ne m.jobs r.job_id _ j h

  -- A report on an unknown job changes nothing.
  pub complete_task_unknown : get m.jobs r.job_id ≡ none → complete_task env r m ≡ (ok tt, m)
  unfolding complete_task
  complete_task_unknown h = rw (h, complete_task)

  -- A report that is stored settles its job.
  pub complete_task_settles :
      (job : JobState)
      → get m.jobs r.job_id ≡ some job
      → (complete_task env r m).0 ≡ ok tt
      → get (complete_task env r m).1.jobs r.job_id
        ≡ some (settle_report env r.status r (note_status r job) (written r m).1).0
  unfolding complete_task
  complete_task_settles job there done =
      rw (there, complete_task) (finished (written r m) (rw (there, complete_task) at done))
    where
      finished :
          (p : Outcome (Unit {0}) × StateStore)
          → (finish_report env r (note_status r job) p m).0 ≡ ok tt
          → get (finish_report env r (note_status r job) p m).1.jobs r.job_id
            ≡ some (settle_report env r.status r (note_status r job) p.1).0
      finished (err e, s) h = cc
      finished (ok _, s) h = get-modify_self m.jobs r.job_id _ there

-- The status that the report brought is the one that is looked up, so no worker is credited.
worker_of-report :
    (r : TaskResult) (job : JobState) (st : TaskStatus)
    → (worker_of (some st) ≡ none)
    → r.status ≡ st
    → worker_of (get (note_status r job).tasks r.task_id) ≡ none
unfolding note_status
worker_of-report r job st h e =
    ap worker_of (get-insert_self job.tasks r.task_id r.status ∙ ap (λ (s : TaskStatus). some s) e)
    ∙ h

-- A completed report on a job, before its status is looked at.
abbrev pub completion : TaskResult → JobState → JobState
completion r job = record job {
  tasks = insert job.tasks r.task_id r.status;
  results = job.results ++ r ∷ [];
  metrics = record job.metrics {
    completed_tasks = add_usize job.metrics.completed_tasks 1;
    pending_tasks =
        saturating_sub job.metrics.total_tasks
          (add_usize (add_usize job.metrics.completed_tasks 1) job.metrics.failed_tasks);
    stages = bump_stage r.stage_id r.metrics.duration_ms job.metrics.stages;
  };
}

note_completed-completion :
    (r : TaskResult) (job : JobState)
    → r.status ≡ completed
    → note_completed r (note_status r job) ≡ completion r job
unfolding note_completed note_status
note_completed-completion r job e = rw (worker_of-report r job completed refl e)

-- A failed report on a job.
abbrev pub failure : TaskResult → Option String → JobState → JobState
failure r error job = record job {
  tasks = insert job.tasks r.task_id r.status;
  status = JobStatus.failed;
  error = error;
  metrics = record job.metrics {
    failed_tasks = add_usize job.metrics.failed_tasks 1;
    pending_tasks =
        saturating_sub job.metrics.total_tasks
          (add_usize job.metrics.completed_tasks (add_usize job.metrics.failed_tasks 1));
  };
}

note_failed-failure :
    (r : TaskResult) (error : Option String) (job : JobState) (msg : String)
    → r.status ≡ TaskStatus.failed msg
    → note_failed r error (note_status r job) ≡ failure r error job
unfolding note_failed note_status
note_failed-failure r error job msg e = rw (worker_of-report r job (TaskStatus.failed msg) refl e)

pub settle_completed :
    (env : Env) (r : TaskResult) (job : JobState) (s : StateStore)
    → r.status ≡ completed
    → (settle_report env r.status r (note_status r job) s).0
      ≡ (settle env r.job_id (completion r job) s).0
unfolding settle_report
settle_completed env r job s e =
    ap (λ st. (settle_report env st r (note_status r job) s).0) e
    ∙ ap (λ j. (settle env r.job_id j s).0) (note_completed-completion r job e)

pub settle_failed :
    (env : Env) (r : TaskResult) (job : JobState) (s : StateStore) (msg : String)
    → r.status ≡ TaskStatus.failed msg
    → (settle_report env r.status r (note_status r job) s).0 ≡ failure r (some msg) job
unfolding settle_report
settle_failed env r job s msg e =
    ap (λ st. (settle_report env st r (note_status r job) s).0) e
    ∙ note_failed-failure r (some msg) job msg e

-- ===== src/Master/Completion/Reports.antt =====
-- What the two kinds of reports make of a job, and that reports are not idempotent.
use mathlib.Core.List.{append_assoc}
use distributed_processing_e.Base.{
  true_not_false, ◌≡◌, refl, ap, ◌∙◌, Bool, true, false, not, some, [], ◌∷◌, ◌++◌, any, All, arith,
  Bool-cases, inl, inr, if◌then◌else◌, String,
}
use distributed_processing_e.Base.Eq.{◌==◌, nat_eq}
use distributed_processing_e.Base.Map.{HashMap, get, values, get-insert}
use distributed_processing_e.Base.Outcome.{ok}
use distributed_processing_e.Base.Words.{add_usize}
use distributed_processing_e.Master.Completion.{complete_task, settle, unfinished}
use distributed_processing_e.Master.State.{Env, JobState, Master, is_completed}
use distributed_processing_e.StateStore.{StateStore}
use distributed_processing_e.Types.{
  TaskId, JobStatus, TaskStatus, TaskResult, completed, succeeded, queued, assigned, running,
  retrying,
}
use distributed_processing_e.Master.Completion.Effects.{
  written, completion, failure, complete_task_settles, settle_completed, settle_failed,
}

-- All tasks of the job are done.
abbrev pub AllDone : JobState → Type 0
AllDone job = All (λ s. s ≡ completed) (values job.tasks)

pub done_status : (s : TaskStatus) → is_completed s ≡ true → s ≡ completed
done_status completed h = refl
done_status queued h = cc
done_status (assigned w) h = cc
done_status (running w) h = cc
done_status (TaskStatus.failed msg) h = cc
done_status (retrying n) h = cc

unfinished-AllDone :
    (tasks : HashMap TaskId TaskStatus)
    → any (λ s. not (is_completed s)) (values tasks) ≡ false
    → All (λ s. s ≡ completed) (values tasks)
unfinished-AllDone [] h = tt
unfinished-AllDone ((t, s) ∷ tasks) h = elim (Bool-cases (is_completed s)) [
  | inl done ↦ (done_status s done, unfinished-AllDone tasks (rw done at h))
  | inr left ↦ absurd (true_not_false (rw left at h))
]

AllDone-unfinished :
    (tasks : HashMap TaskId TaskStatus)
    → All (λ s. s ≡ completed) (values tasks)
    → any (λ s. not (is_completed s)) (values tasks) ≡ false
AllDone-unfinished [] h = refl
AllDone-unfinished ((t, s) ∷ tasks) h = rw h.0 (AllDone-unfinished tasks h.1)

-- What a completed report makes of a job.
pub record IsCompletion (r : TaskResult) (old new : JobState) : Type 0 where
  pub noted :
      (t : TaskId) → get new.tasks t ≡ (if r.task_id == t then some r.status else get old.tasks t)
  pub results : new.results ≡ old.results ++ r ∷ []
  pub counted : new.metrics.completed_tasks ≡ add_usize old.metrics.completed_tasks 1
  pub failures : new.metrics.failed_tasks ≡ old.metrics.failed_tasks
  pub finished : AllDone new → new.status ≡ succeeded
  pub going_on : ¬ AllDone new → new.status ≡ old.status
  pub error : new.error ≡ old.error
  pub dag : new.dag ≡ old.dag

settle-IsCompletion :
    (env : Env) (r : TaskResult) (job : JobState) (s : StateStore)
    → IsCompletion r job (settle env r.job_id (completion r job) s).0
settle-IsCompletion env r job s = elim (Bool-cases (unfinished (completion r job))) [
  | inl left ↦ rw left (record {
    noted = λ t. get-insert job.tasks r.task_id r.status t;
    results = refl;
    counted = refl;
    failures = refl;
    finished = λ all. absurd (clash left (AllDone-unfinished (completion r job).tasks all));
    going_on = λ _. refl;
    error = refl;
    dag = refl;
  })
  | inr done ↦ rw done (record {
    noted = λ t. get-insert job.tasks r.task_id r.status t;
    results = refl;
    counted = refl;
    failures = refl;
    finished = λ _. refl;
    going_on = λ not_all. absurd (not_all (unfinished-AllDone (completion r job).tasks done));
    error = refl;
    dag = refl;
  })
]
  where
    clash : {b : Bool} → b ≡ true → b ≡ false → ⊥
    clash p q = cc

-- A completed report that is stored adds its result and one completed task to its job, and makes the
-- job succeeded exactly where all its tasks are completed then; otherwise the job's status stays.
pub complete_task-IsCompletion :
    (env : Env) (r : TaskResult) (m : Master) (job : JobState)
    → get m.jobs r.job_id ≡ some job
    → r.status ≡ completed
    → (complete_task env r m).0 ≡ ok tt
    → (new : JobState) × (get (complete_task env r m).1.jobs r.job_id ≡ some new)
      × IsCompletion r job new
complete_task-IsCompletion env r m job there e done =
    let s = (written r m).1 in
    (
      (settle env r.job_id (completion r job) s).0,
      complete_task_settles env r m job there done
          ∙ ap (λ (j : JobState). some j) (settle_completed env r job s e),
      settle-IsCompletion env r job s,
    )

-- What a failed report makes of a job.
pub record IsFailure (r : TaskResult) (msg : String) (old new : JobState) : Type 0 where
  pub noted :
      (t : TaskId) → get new.tasks t ≡ (if r.task_id == t then some r.status else get old.tasks t)
  pub results : new.results ≡ old.results
  pub counted : new.metrics.failed_tasks ≡ add_usize old.metrics.failed_tasks 1
  pub successes : new.metrics.completed_tasks ≡ old.metrics.completed_tasks
  pub status : new.status ≡ JobStatus.failed
  pub error : new.error ≡ some msg
  pub dag : new.dag ≡ old.dag

-- A failed report that is stored makes its job failed with the report's message, counts one failed
-- task and leaves the results as they were.
pub complete_task-IsFailure :
    (env : Env) (r : TaskResult) (m : Master) (job : JobState) (msg : String)
    → get m.jobs r.job_id ≡ some job
    → r.status ≡ TaskStatus.failed msg
    → (complete_task env r m).0 ≡ ok tt
    → (new : JobState) × (get (complete_task env r m).1.jobs r.job_id ≡ some new)
      × IsFailure r msg job new
complete_task-IsFailure env r m job msg there e done = (
  failure r (some msg) job,
  complete_task_settles env r m job there done
      ∙ ap (λ (j : JobState). some j) (settle_failed env r job (written r m).1 msg e),
  record {
    noted = λ t. get-insert job.tasks r.task_id r.status t;
    results = refl;
    counted = refl;
    successes = refl;
    status = refl;
    error = refl;
    dag = refl;
  },
)

-- A completed report that arrives twice is counted twice, and its result stands twice in the job:
-- reports are not idempotent.
pub complete_task_twice :
    (env : Env) (r : TaskResult) (m : Master) (job : JobState)
    → get m.jobs r.job_id ≡ some job
    → r.status ≡ completed
    → (complete_task env r m).0 ≡ ok tt
    → (complete_task env r (complete_task env r m).1).0 ≡ ok tt
    → (new : JobState) × (get (complete_task env r (complete_task env r m).1).1.jobs r.job_id
        ≡ some new)
      × (new.results ≡ job.results ++ r ∷ r ∷ [])
      × (new.metrics.completed_tasks ≡ add_usize job.metrics.completed_tasks 2)
complete_task_twice env r m job there e done again =
    let (once, there₁, first) = complete_task-IsCompletion env r m job there e done in
    let (twice, there₂, second) =
      complete_task-IsCompletion env r (complete_task env r m).1 once there₁ e again in
    (
      twice,
      there₂,
      second.results
          ∙ ap (λ rs. rs ++ r ∷ []) first.results
          ∙ append_assoc job.results (r ∷ []) (r ∷ []),
      omega (arith, second.counted, first.counted),
    )

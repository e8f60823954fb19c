-- ===== src/Master/Counting.antt =====
-- Facts that hold of every job after any run of the master, from what it read back at its start.
use mathlib.Core.Path.{subst}
use distributed_processing_e.Base.{
  ◌≡◌, ◌≢◌, refl, sym, Option, none, some, List, [], ◌∷◌, ◌++◌, All, arith, Bool-cases, inl, inr,
  Option-cases, String,
}
use distributed_processing_e.Base.Eq.{nat_eq}
use distributed_processing_e.Base.Map.{HashMap, get}
use distributed_processing_e.Base.Words.{add_usize, saturating_sub}
use distributed_processing_e.Config.{Config}
use distributed_processing_e.Master.Completion.{note_status, settle_report, settle, unfinished}
use distributed_processing_e.Master.Completion.Effects.{
  completion, failure, settle_completed, settle_failed,
}
use distributed_processing_e.Master.Completion.Reports.{done_status}
use distributed_processing_e.Master.Events.{Event, run}
use distributed_processing_e.Master.Invariant.{
  AllJobs, AllJobs-insert, AllJobs-modify, Rule, run-AllJobs,
}
use distributed_processing_e.Master.Recovery.{
  new, restore_jobs, restore_tasks, restore_task, restored_job, add_task, placeholder,
  finished_result,
}
use distributed_processing_e.Master.State.{Orders, with_orders, Env, JobState, is_completed}
use distributed_processing_e.Master.Submission.{initial_job}
use distributed_processing_e.StateStore.{StateStore, JobRow, TaskRow}
use distributed_processing_e.Types.{
  JobId, TaskId, JobStatus, TaskStatus, TaskResult, completed, queued, assigned, running, retrying,
}

-- A fact that a report keeps, shown for each kind of report.
pub record Reports (P : JobState → Type 0) : Type 0 where
  pub completes :
      (r : TaskResult) (job : JobState) → r.status ≡ completed → P job → P (completion r job)
  pub succeeds : (job : JobState) → P job → P (record job { status = JobStatus.succeeded })
  pub fails :
      (r : TaskResult) (msg : String) (job : JobState) → P job → P (failure r (some msg) job)
  pub notes : (r : TaskResult) (job : JobState) → P job → P (note_status r job)

module _ (env : Env) {P : JobState → Type 0} (reports : Reports P) where
  settle-P :
      (r : TaskResult) (job : JobState) (s : StateStore) → P job → P (settle env r.job_id job s).0
  settle-P r job s p = elim (Bool-cases (unfinished job)) [
    | inl left ↦ rw left p
    | inr done ↦ rw done (reports.succeeds job p)
  ]

  -- The other statuses change nothing more.
  pub settle_report-P :
      (r : TaskResult) (job : JobState) (s : StateStore) (st : TaskStatus)
      → r.status ≡ st
      → P job
      → P (settle_report env r.status r (note_status r job) s).0
  settle_report-P r job s completed e p =
      subst P (sym (settle_completed env r job s e))
        (settle-P r (completion r job) s (reports.completes r job e p))
  settle_report-P r job s (TaskStatus.failed msg) e p =
      subst P (sym (settle_failed env r job s msg e)) (reports.fails r msg job p)
  settle_report-P r job s queued e p =
      subst (λ st. P (settle_report env st r (note_status r job) s).0) (sym e)
        (unfold settle_report in reports.notes r job p)
  settle_report-P r job s (assigned w) e p =
      subst (λ st. P (settle_report env st r (note_status r job) s).0) (sym e)
        (unfold settle_report in reports.notes r job p)
  settle_report-P r job s (running w) e p =
      subst (λ st. P (settle_report env st r (note_status r job) s).0) (sym e)
        (unfold settle_report in reports.notes r job p)
  settle_report-P r job s (retrying n) e p =
      subst (λ st. P (settle_report env st r (note_status r job) s).0) (sym e)
        (unfold settle_report in reports.notes r job p)

-- A fact that reading a job back keeps.
record Restores (P : JobState → Type 0) : Type 0 where
  restores : (row : JobRow) → P (restored_job row)
  adds : (t : TaskId) (row : TaskRow) (job : JobState) → P job → P (add_task t row job)
  places : (t : TaskId) (row : TaskRow) → P (placeholder t row)

none_not_some : {job : JobState} → none ≢ some job
none_not_some e = cc

module _ {P : JobState → Type 0} (back : Restores P) where
  restore_jobs-AllJobs :
      (rows : List (JobId × JobRow)) (jobs : HashMap JobId JobState)
      → AllJobs P jobs
      → AllJobs P (restore_jobs rows jobs)
  unfolding restore_jobs
  restore_jobs-AllJobs [] jobs h = h
  restore_jobs-AllJobs ((j, row) ∷ rows) jobs h =
      restore_jobs-AllJobs rows _ (AllJobs-insert jobs j (restored_job row) (back.restores row) h)

  restore_task-AllJobs :
      (t : TaskId) (row : TaskRow) (jobs : HashMap JobId JobState)
      → AllJobs P jobs
      → AllJobs P (restore_task (t, row) jobs)
  unfolding restore_task
  restore_task-AllJobs t row jobs h = elim (Option-cases (get jobs row.job_id)) [
    | inl absent ↦
        rw (absent, restore_task)
          (AllJobs-insert jobs row.job_id (placeholder t row) (back.places t row) h)
    | inr (job, there) ↦
        rw (there, restore_task)
          (AllJobs-modify jobs row.job_id (add_task t row)
            (λ old found. back.adds t row old (h row.job_id old found)) h)
  ]

  restore_tasks-AllJobs :
      (rows : List (TaskId × TaskRow)) (jobs : HashMap JobId JobState)
      → AllJobs P jobs
      → AllJobs P (restore_tasks rows jobs)
  unfolding restore_tasks
  restore_tasks-AllJobs [] jobs h = h
  restore_tasks-AllJobs ((t, row) ∷ rows) jobs h =
      restore_tasks-AllJobs rows (restore_task (t, row) jobs) (restore_task-AllJobs t row jobs h)

  new-AllJobs : (c : Config) (s : StateStore) → AllJobs P (new c s).jobs
  unfolding new get
  new-AllJobs c s = restore_tasks-AllJobs _ _ (restore_jobs-AllJobs _ [] nothing)
    where
      nothing : AllJobs P []
      nothing j job e = absurd (none_not_some e)

-- What the metrics and the results of a job always say.
pub record IsConsistent (job : JobState) : Type 0 where
  pub counted :
      job.metrics.pending_tasks
      ≡ saturating_sub job.metrics.total_tasks
          (add_usize job.metrics.completed_tasks job.metrics.failed_tasks)
  pub results_completed : All (λ r. r.status ≡ completed) job.results
  pub workers_empty : job.metrics.workers ≡ []

All-snoc :
    (rs : List TaskResult) (r : TaskResult)
    → r.status ≡ completed
    → All (λ r. r.status ≡ completed) rs
    → All (λ r. r.status ≡ completed) (rs ++ r ∷ [])
All-snoc [] r e h = (e, tt)
All-snoc (x ∷ rs) r e h = (h.0, All-snoc rs r e h.1)

IsConsistent-reports : Reports IsConsistent
unfolding note_status
IsConsistent-reports = record {
  completes = λ r job e p. record {
    counted = refl;
    results_completed = All-snoc job.results r e p.results_completed;
    workers_empty = p.workers_empty;
  };
  succeeds = λ job p. record {
    counted = p.counted;
    results_completed = p.results_completed;
    workers_empty = p.workers_empty;
  };
  fails = λ r msg job p. record {
    counted = refl;
    results_completed = p.results_completed;
    workers_empty = p.workers_empty;
  };
  notes = λ r job p. record {
    counted = p.counted;
    results_completed = p.results_completed;
    workers_empty = p.workers_empty;
  };
}

IsConsistent-rule : (env : Env) → Rule env IsConsistent
unfolding note_status initial_job
IsConsistent-rule env = record {
  starts =
      λ dag tasks. record { counted = omega arith; results_completed = tt; workers_empty = refl };
  assigns = λ w task job p. record {
    counted = p.counted;
    results_completed = p.results_completed;
    workers_empty = p.workers_empty;
  };
  runs = λ job p. record {
    counted = p.counted;
    results_completed = p.results_completed;
    workers_empty = p.workers_empty;
  };
  notes = IsConsistent-reports.notes;
  settles = λ r job s p. settle_report-P env IsConsistent-reports r job s r.status refl (record {
    counted = p.counted;
    results_completed = p.results_completed;
    workers_empty = p.workers_empty;
  });
}

completed_result : (o : Option TaskResult) → All (λ r. r.status ≡ completed) (finished_result o)
completed_result none = tt
completed_result (some r) = elim (Bool-cases (is_completed r.status)) [
  | inl done ↦ rw done (done_status r.status done, tt)
  | inr other ↦ rw other tt
]

All-append :
    (rs qs : List TaskResult)
    → All (λ r. r.status ≡ completed) rs
    → All (λ r. r.status ≡ completed) qs
    → All (λ r. r.status ≡ completed) (rs ++ qs)
All-append [] qs h k = k
All-append (x ∷ rs) qs h k = (h.0, All-append rs qs h.1 k)

IsConsistent-back : Restores IsConsistent
IsConsistent-back = record {
  restores = λ row. record { counted = refl; results_completed = tt; workers_empty = refl };
  adds = λ t row job p. record {
    counted = p.counted;
    results_completed = All-append job.results _ p.results_completed (completed_result row.result);
    workers_empty = p.workers_empty;
  };
  places = λ t row. record {
    counted = refl;
    results_completed = completed_result row.result;
    workers_empty = refl;
  };
}

-- After any run of a master that was started on any store, of every job that it knows: in the job's
-- metrics the counter of pending tasks is the counter of all tasks less the counters of completed and
-- of failed ones, not below zero; every result of it has the status completed; and it has no worker
-- aggregates, since a report overwrites the status that names its worker.
pub run-IsConsistent :
    (env : Env) (c : Config) (store : StateStore) (es : List (Orders × Event)) (j : JobId)
    (job : JobState)
    → get (run env es (new c store)).jobs j ≡ some job
    → IsConsistent job
run-IsConsistent env c store es =
    run-AllJobs env (λ orders. IsConsistent-rule (with_orders env orders)) es (new c store)
      (new-AllJobs IsConsistent-back c store)

-- ===== src/Master/Keys.antt =====
-- That the map of jobs has each identifier once, after any run.
use distributed_processing_e.Base.{List, [], ◌∷◌, Option-cases, inl, inr}
use distributed_processing_e.Base.Eq.{nat_eq}
use distributed_processing_e.Base.Map.{HashMap, get, Distinct, insert-Distinct, modify-Distinct}
use distributed_processing_e.Config.{Config}
use distributed_processing_e.Master.Events.{Event, run}
use distributed_processing_e.Master.Invariant.{MapRule, run-keeps, schedule_each-keeps}
use distributed_processing_e.Master.Scheduling.{schedule_all_queued_tasks, queued_tasks_snapshot}
use distributed_processing_e.Master.Recovery.{
  new, restore_jobs, restore_tasks, restore_task, restored_job, add_task, placeholder,
}
use distributed_processing_e.Master.State.{Orders, with_orders, Env, JobState, Master}
use distributed_processing_e.StateStore.{StateStore, JobRow, TaskRow}
use distributed_processing_e.Types.{JobId, TaskId}

Distinct-rule : (env : Env) → MapRule env (Distinct)
Distinct-rule env = record {
  starts = λ jobs j dag tasks h. insert-Distinct jobs j _ h;
  assigns = λ jobs j w task h. modify-Distinct jobs j _ h;
  runs = λ jobs j job there h. modify-Distinct jobs j _ h;
  notes = λ jobs r job there h. modify-Distinct jobs r.job_id _ h;
  settles = λ jobs r job s there h. modify-Distinct jobs r.job_id _ h;
}

restore_jobs-Distinct :
    (rows : List (JobId × JobRow)) (jobs : HashMap JobId JobState)
    → Distinct jobs
    → Distinct (restore_jobs rows jobs)
unfolding restore_jobs
restore_jobs-Distinct [] jobs h = h
restore_jobs-Distinct ((j, row) ∷ rows) jobs h =
    restore_jobs-Distinct rows _ (insert-Distinct jobs j (restored_job row) h)

restore_task-Distinct :
    (t : TaskId) (row : TaskRow) (jobs : HashMap JobId JobState)
    → Distinct jobs
    → Distinct (restore_task (t, row) jobs)
unfolding restore_task
restore_task-Distinct t row jobs h = elim (Option-cases (get jobs row.job_id)) [
  | inl absent ↦ rw (absent, restore_task) (insert-Distinct jobs row.job_id (placeholder t row) h)
  | inr (job, there) ↦ rw (there, restore_task) (modify-Distinct jobs row.job_id (add_task t row) h)
]

restore_tasks-Distinct :
    (rows : List (TaskId × TaskRow)) (jobs : HashMap JobId JobState)
    → Distinct jobs
    → Distinct (restore_tasks rows jobs)
unfolding restore_tasks
restore_tasks-Distinct [] jobs h = h
restore_tasks-Distinct ((t, row) ∷ rows) jobs h =
    restore_tasks-Distinct rows _ (restore_task-Distinct t row jobs h)

-- After any run of a master that was started on any store, each job has one entry.
pub run-Distinct :
    (env : Env) (c : Config) (s : StateStore) (es : List (Orders × Event))
    → Distinct (run env es (new c s)).jobs
unfolding new
run-Distinct env c s es =
    run-keeps env (λ orders. Distinct-rule (with_orders env orders)) es (new c s)
      (restore_tasks-Distinct _ _ (restore_jobs-Distinct _ [] tt))

-- A scheduling pass keeps that.
pub schedule_all-Distinct :
    (env : Env) (m : Master) → Distinct m.jobs → Distinct (schedule_all_queued_tasks env m).jobs
unfolding schedule_all_queued_tasks
schedule_all-Distinct env m h =
    schedule_each-keeps env (Distinct-rule env) (queued_tasks_snapshot env m) m h

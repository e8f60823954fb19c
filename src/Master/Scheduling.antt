-- ===== src/Master/Scheduling.antt =====
-- `schedule_task`, `queued_tasks_snapshot` and `schedule_all_queued_tasks` of src/master/mod.rs.
use Prim.Native.String.{◌++◌ as append}
use distributed_processing_e.Base.{
  String, Option, none, some, List, [], ◌∷◌, ◌++◌, keep, if◌then◌else◌,
}
use distributed_processing_e.Base.Eq.{nat_eq}
use distributed_processing_e.Base.Map.{HashMap, get, insert, modify}
use distributed_processing_e.Dag.{materialize_tasks}
use distributed_processing_e.Master.State.{
  Env, JobState, Master, with_store, put_job, progress_of, output_paths, is_running, is_queued,
}
use distributed_processing_e.Registry.{get_worker}
use distributed_processing_e.Scheduler.{select_worker}
use distributed_processing_e.StateStore.{persist_task_status, persist_job, persist_job_status}
use distributed_processing_e.Types.{JobId, WorkerId, WorkerInfo, JobStatus, TaskStatus, Task}

abbrev pub assign : WorkerId → Task → JobState → JobState
assign worker_id task job = record job {
  tasks = insert job.tasks task.task_id (TaskStatus.assigned worker_id);
}

abbrev pub endpoint : WorkerInfo → String
endpoint w = append "http://" (append w.address "/api/v1/tasks/execute")

abbrev pub post : Task → Option WorkerInfo → Master → Master
post task none m = m
post task (some w) m = record m { sent = (endpoint w, task) ∷ m.sent }

unfoldable pub dispatch : WorkerId → Task → Master → Master
dispatch worker_id task m = post task (get_worker m.registry worker_id) m

abbrev pub persist_assignment : WorkerId → Task → Master → Master
persist_assignment worker_id task m =
    with_store m
      (persist_task_status task.task_id task.job_id (TaskStatus.assigned worker_id) m.state_store).1

module _ (env : Env) where
  -- Both writes to the store are best effort.
  unfoldable pub persist_running : JobId → JobState → Master → Master
  persist_running job_id job m =
      let s = (persist_job job_id job.dag JobStatus.running m.state_store).1 in
      with_store m
        (persist_job_status job_id JobStatus.running (progress_of env.floats job.metrics)
          job.metrics job.error (output_paths job.results) s).1

  abbrev pub start_job : JobId → Option JobState → Master → Master
  start_job job_id none m = m
  start_job job_id (some job) m =
      if is_running job.status
      then m
      else (let job' = record job { status = JobStatus.running } in
          persist_running job_id job' (put_job m job_id job'))

  -- When a task is assigned, its job is marked as running, whatever its status was.
  unfoldable pub mark_running : JobId → Master → Master
  mark_running job_id m = start_job job_id (get m.jobs job_id) m

  abbrev pub schedule_on : Option WorkerId → Task → Master → Master
  schedule_on none task m = m
  schedule_on (some worker_id) task m =
      let assigned_m = record m { jobs = modify m.jobs task.job_id (assign worker_id task) } in
      let persisted = persist_assignment worker_id task assigned_m in
      dispatch worker_id task (mark_running task.job_id persisted)

  unfoldable pub schedule_task : Task → Master → Master
  schedule_task task m =
      let (worker, scheduler) = select_worker env.floats m.scheduler m.registry in
      schedule_on worker task (record m { scheduler = scheduler })

  -- The map of counters of each job has its own order.
  abbrev pub queued_of : JobId × JobState → List Task
  queued_of (job_id, job) =
      keep (λ task. is_queued (get job.tasks task.task_id))
        (materialize_tasks (env.iter job_id) env.new_v5 job.dag job_id)

  unfoldable pub queued_in : HashMap JobId JobState → List Task
  queued_in [] = []
  queued_in (entry ∷ jobs) = queued_of entry ++ queued_in jobs

  unfoldable pub queued_tasks_snapshot : Master → List Task
  queued_tasks_snapshot m = queued_in m.jobs

  unfoldable pub schedule_each : List Task → Master → Master
  schedule_each [] m = m
  schedule_each (task ∷ tasks) m = schedule_each tasks (schedule_task task m)

  unfoldable pub schedule_all_queued_tasks : Master → Master
  schedule_all_queued_tasks m = schedule_each (queued_tasks_snapshot m) m

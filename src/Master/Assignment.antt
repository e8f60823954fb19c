-- ===== src/Master/Assignment.antt =====
-- What `schedule_task` of src/master/mod.rs does to the jobs and what it sends.
use mathlib.Core.Path.{subst}
use distributed_processing_e.Base.{
  ◌≡◌, ◌≢◌, refl, sym, ap, ◌∙◌, true, Option, none, some, [], ◌∷◌, arith, Bool-cases, Option-cases,
  inl, inr,
}
use distributed_processing_e.Base.Eq.{nat_eq}
use distributed_processing_e.Base.Map.{get, modify, get-modify_self, get-modify_ne, get-modify}
use distributed_processing_e.Master.Scheduling.{
  assign, endpoint, post, dispatch, persist_assignment, persist_running, start_job, mark_running,
  schedule_on, schedule_task,
}
use distributed_processing_e.Master.State.{Env, JobState, Master, is_running}
use distributed_processing_e.Registry.{available_workers, get_worker}
use distributed_processing_e.Registry.Availability.{IsWellFormed, available_workers_iff}
use distributed_processing_e.Scheduler.{RoundRobinScheduler, select_worker}
use distributed_processing_e.Scheduler.Renewal.{InStep}
use distributed_processing_e.Scheduler.Selection.{
  IsLeastLoaded, select_worker-none_iff, select_worker-IsLeastLoaded,
}
use distributed_processing_e.Types.{
  JobId, WorkerId, WorkerInfo, JobStatus, Task, WorkerStatus, running,
}

-- The job with the task placed on the worker.
abbrev pub placed : WorkerId → Task → JobState → JobState
placed w task job = record (assign w task job) { status = running }

running_status :
    (job : JobState) → is_running job.status ≡ true → job ≡ record job { status = running }
running_status job h = ap (λ st. record job { status = st }) (go job.status h)
  where
    go : (st : JobStatus) → is_running st ≡ true → st ≡ running
    go running h = refl
    go JobStatus.pending h = cc
    go JobStatus.accepted h = cc
    go JobStatus.completed h = cc
    go JobStatus.succeeded h = cc
    go (JobStatus.failed) h = cc

module _ (env : Env) where
  mark_running_self :
      (j : JobId) (m : Master) (job : JobState)
      → get m.jobs j ≡ some job
      → get (mark_running env j m).jobs j ≡ some (record job { status = running })
  unfolding mark_running persist_running
  mark_running_self j m job there = elim (Bool-cases (is_running job.status)) [
    | inl already ↦
        rw (there, mark_running, already)
          (there ∙ ap (λ (job : JobState). some job) (running_status job already))
    | inr not_yet ↦ rw (there, mark_running, not_yet) (get-modify_self m.jobs j _ there)
  ]

  mark_running_other :
      (j : JobId) (m : Master) (i : JobId)
      → j ≢ i
      → get (mark_running env j m).jobs i ≡ get m.jobs i
  unfolding mark_running persist_running
  mark_running_other j m i h = elim (Option-cases (get m.jobs j)) [
    | inl absent ↦ rw (absent, mark_running)
    | inr (job, there) ↦ elim (Bool-cases (is_running job.status)) [
      | inl already ↦ rw (there, mark_running, already)
      | inr not_yet ↦ rw (there, mark_running, not_yet) (get-modify_ne m.jobs j _ i h)
    ]
  ]

  mark_running_rest :
      (j : JobId) (m : Master)
      → ((mark_running env j m).registry ≡ m.registry) × ((mark_running env j m).sent ≡ m.sent)
  unfolding mark_running persist_running
  mark_running_rest j m = elim (Option-cases (get m.jobs j)) [
    | inl absent ↦ rw (absent, mark_running) (refl, refl)
    | inr (job, there) ↦ elim (Bool-cases (is_running job.status)) [
      | inl already ↦ rw (there, mark_running, already) (refl, refl)
      | inr not_yet ↦ rw (there, mark_running, not_yet) (refl, refl)
    ]
  ]

  dispatch_rest :
      (w : WorkerId) (task : Task) (m : Master)
      → ((dispatch w task m).registry ≡ m.registry) × ((dispatch w task m).jobs ≡ m.jobs)
  unfolding dispatch
  dispatch_rest w task m = go (get_worker m.registry w)
    where
      go :
          (o : Option WorkerInfo)
          → ((post task o m).registry ≡ m.registry) × ((post task o m).jobs ≡ m.jobs)
      go none = (refl, refl)
      go (some info) = (refl, refl)

  dispatch_sent :
      (w : WorkerId) (task : Task) (m : Master) (info : WorkerInfo)
      → get_worker m.registry w ≡ some info
      → (dispatch w task m).sent ≡ (endpoint info, task) ∷ m.sent
  unfolding dispatch
  dispatch_sent w task m info h = ap (λ o. (post task o m).sent) h

  module _ (w : WorkerId) (task : Task) (m : Master) where
    abbrev persisted : Master
    persisted =
        persist_assignment w task (record m { jobs = modify m.jobs task.job_id (assign w task) })

    pub schedule_on_self :
        (job : JobState)
        → get m.jobs task.job_id ≡ some job
        → get (schedule_on env (some w) task m).jobs task.job_id ≡ some (placed w task job)
    schedule_on_self job there =
        ap (λ jobs. get jobs task.job_id)
          (dispatch_rest w task (mark_running env task.job_id persisted)).1
        ∙ mark_running_self task.job_id persisted (assign w task job)
            (get-modify_self m.jobs task.job_id (assign w task) there)

    pub schedule_on_other :
        (j : JobId) → task.job_id ≢ j → get (schedule_on env (some w) task m).jobs j ≡ get m.jobs j
    schedule_on_other j h =
        ap (λ jobs. get jobs j) (dispatch_rest w task (mark_running env task.job_id persisted)).1
        ∙ mark_running_other task.job_id persisted j h
        ∙ get-modify_ne m.jobs task.job_id (assign w task) j h

    pub schedule_on_absent :
        get m.jobs task.job_id ≡ none
        → get (schedule_on env (some w) task m).jobs task.job_id ≡ none
    unfolding mark_running
    schedule_on_absent h =
        ap (λ jobs. get jobs task.job_id)
          (dispatch_rest w task (mark_running env task.job_id persisted)).1
        ∙ ap (λ o. get (start_job env task.job_id o persisted).jobs task.job_id) gone
        ∙ gone
      where
        gone : get persisted.jobs task.job_id ≡ none
        gone = get-modify m.jobs task.job_id (assign w task) task.job_id ∙ ground (arith, h)

    pub schedule_on-registry : (schedule_on env (some w) task m).registry ≡ m.registry
    schedule_on-registry =
        (dispatch_rest w task (mark_running env task.job_id persisted)).0
        ∙ (mark_running_rest task.job_id persisted).0

    schedule_on-sent :
        (info : WorkerInfo)
        → get_worker m.registry w ≡ some info
        → (schedule_on env (some w) task m).sent ≡ (endpoint info, task) ∷ m.sent
    schedule_on-sent info h =
        dispatch_sent w task (mark_running env task.job_id persisted) info
          (ap (λ r. get_worker r w) (mark_running_rest task.job_id persisted).0 ∙ h)
        ∙ ap (λ s. (endpoint info, task) ∷ s) (mark_running_rest task.job_id persisted).1

  -- The choice that `schedule_task` makes.
  abbrev pub choice : Master → Option WorkerId × RoundRobinScheduler
  choice m = select_worker env.floats m.scheduler m.registry

  pub schedule_task_chosen :
      (task : Task) (m : Master) (o : Option WorkerId)
      → (choice m).0 ≡ o
      → schedule_task env task m ≡ schedule_on env o task (record m { scheduler = (choice m).1 })
  unfolding schedule_task
  schedule_task_chosen task m o e =
      ap (λ o. schedule_on env o task (record m { scheduler = (choice m).1 })) e

  -- What placing a task on a worker means.
  pub record IsPlacement (task : Task) (job : JobState) (old new : Master) : Type 0 where
    pub worker : WorkerInfo
    pub registered : get_worker old.registry worker.id ≡ some worker
    pub active : worker.status ≡ WorkerStatus.active
    pub least : IsLeastLoaded env.floats (available_workers old.registry) worker.id
    pub job_after : get new.jobs task.job_id ≡ some (placed worker.id task job)
    pub others : (j : JobId) → task.job_id ≢ j → get new.jobs j ≡ get old.jobs j
    pub sent : new.sent ≡ (endpoint worker, task) ∷ old.sent
    pub registry : new.registry ≡ old.registry

  -- Where the registry has every worker under its own identifier and once, the scheduler's queue is in
  -- step with it and a worker is available, a task of a known job is assigned to a least loaded one of them and
  -- posted to its endpoint; its job is running then, whatever its status and its error were, and no
  -- other job changes.
  pub schedule_task-IsPlacement :
      (task : Task) (m : Master) (job : JobState)
      → IsWellFormed m.registry
      → InStep m.scheduler m.registry
      → available_workers m.registry ≢ []
      → get m.jobs task.job_id ≡ some job
      → IsPlacement task job m (schedule_task env task m)
  schedule_task-IsPlacement task m job wf step some_left there = elim (Option-cases (choice m).0) [
    | inl no_worker ↦
        absurd (some_left ((select_worker-none_iff env.floats m.scheduler m.registry).0 no_worker))
    | inr (w, e) ↦
        let least = select_worker-IsLeastLoaded env.floats m.scheduler m.registry w step e in
        let (found, act) = (available_workers_iff m.registry least.worker wf).0 least.available in
        let m' = record m { scheduler = (choice m).1 } in
        subst (IsPlacement task job m) (sym (schedule_task_chosen task m (some w) e)) (
          subst (λ w. IsPlacement task job m (schedule_on env (some w) task m')) least.named
            (record {
              worker = least.worker;
              registered = found;
              active = act;
              least =
                  subst (IsLeastLoaded env.floats (available_workers m.registry)) (sym least.named)
                    least;
              job_after = schedule_on_self least.worker.id task m' job there;
              others = schedule_on_other least.worker.id task m';
              sent = schedule_on-sent least.worker.id task m' least.worker found;
              registry = schedule_on-registry least.worker.id task m';
            }))
  ]

  -- Where none is, a task stays where it is: nothing but the scheduler changes.
  schedule_task_nowhere :
      (task : Task) (m : Master)
      → available_workers m.registry ≡ []
      → schedule_task env task m ≡ record m { scheduler = (choice m).1 }
  schedule_task_nowhere task m h =
      schedule_task_chosen task m none
        ((select_worker-none_iff env.floats m.scheduler m.registry).1 h)

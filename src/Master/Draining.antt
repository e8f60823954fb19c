-- ===== src/Master/Draining.antt =====
-- What `schedule_all_queued_tasks` of src/master/mod.rs does to the tasks that wait.
use mathlib.Core.Path.{subst}
use mathlib.Core.Option.{some-injective, none-ne-some}
use distributed_processing_e.Base.{
  false, false_not_true, ◌≡◌, ◌≢◌, refl, sym, ap, ◌∙◌, none, some, List, [], ◌∷◌, arith, Bool-cases,
  Option-cases, inl, inr, Among, Among-keep, All-Among,
}
use distributed_processing_e.Base.Eq.{◌==◌, nat_eq}
use distributed_processing_e.Base.Map.{HashMap, get, get-insert_self}
use distributed_processing_e.Dag.{materialize_tasks}
use distributed_processing_e.Dag.Tasks.{materialize_tasks_job}
use distributed_processing_e.Master.Assignment.{
  placed, choice, schedule_on_self, schedule_on_other, schedule_on-registry, schedule_on_absent,
  schedule_task_chosen,
}
use distributed_processing_e.Master.Scheduling.{
  schedule_on, schedule_task, schedule_each, queued_of, queued_in, queued_tasks_snapshot,
  schedule_all_queued_tasks,
}
use distributed_processing_e.Master.State.{Env, JobState, Master, is_queued}
use distributed_processing_e.Registry.{available_workers}
use distributed_processing_e.Scheduler.Selection.{select_worker-none_iff}
use distributed_processing_e.Types.{JobId, WorkerId, Task, TaskStatus}
use distributed_processing_e.Master.Advancing.{
  IsQueued, Advances, placed-Advances, Forward, Forward-refl, Forward-trans, Among-left,
  Among-right,
}

module _ (env : Env) where
  schedule_on-Forward :
      (w : WorkerId) (task : Task) (m : Master)
      → Forward m.jobs (schedule_on env (some w) task m).jobs
  unfolding Forward
  schedule_on-Forward w task m j job e = elim (Bool-cases (task.job_id == j)) [
    | inr other ↦ (
      job,
      sym (schedule_on_other env w task m j (λ same. ground arith)) ∙ e,
      record { dag = refl; queued = λ t q. q },
    )
    | inl same ↦
        subst
          (λ j.
            get (schedule_on env (some w) task m).jobs j ≡ some job
            → (before : JobState) × (get m.jobs j ≡ some before) × Advances before job)
          ((nat_eq.same_iff task.job_id j).0 same) here e
  ]
    where
      here :
          get (schedule_on env (some w) task m).jobs task.job_id ≡ some job
          → (before : JobState) × (get m.jobs task.job_id ≡ some before) × Advances before job
      here e = elim (Option-cases (get m.jobs task.job_id)) [
        | inl absent ↦ absurd (none-ne-some job (sym (schedule_on_absent env w task m absent) ∙ e))
        | inr (before, there) ↦ (
          before,
          there,
          subst (Advances before)
              (some-injective _ _ (sym (schedule_on_self env w task m before there) ∙ e))
              (placed-Advances w task before),
        )
      ]

  schedule_task-Forward :
      (task : Task) (m : Master) → Forward m.jobs (schedule_task env task m).jobs
  schedule_task-Forward task m = elim (Option-cases (choice env m).0) [
    | inl no_worker ↦ rw (schedule_task_chosen env task m none no_worker) (Forward-refl m.jobs)
    | inr (w, e) ↦
        rw (schedule_task_chosen env task m (some w) e)
          (schedule_on-Forward w task (record m { scheduler = (choice env m).1 }))
  ]

  schedule_task-registry :
      (task : Task) (m : Master) → (schedule_task env task m).registry ≡ m.registry
  schedule_task-registry task m = elim (Option-cases (choice env m).0) [
    | inl no_worker ↦ rw (schedule_task_chosen env task m none no_worker)
    | inr (w, e) ↦
        rw (schedule_task_chosen env task m (some w) e)
          (schedule_on-registry env w task (record m { scheduler = (choice env m).1 }))
  ]

  schedule_each-Forward :
      (tasks : List Task) (m : Master) → Forward m.jobs (schedule_each env tasks m).jobs
  unfolding schedule_each
  schedule_each-Forward [] m = Forward-refl m.jobs
  schedule_each-Forward (task ∷ tasks) m =
      Forward-trans m.jobs (schedule_task env task m).jobs _ (schedule_task-Forward task m)
        (schedule_each-Forward tasks (schedule_task env task m))

  -- A task that was just scheduled is not queued.
  schedule_task_clears :
      (task : Task) (m : Master)
      → available_workers m.registry ≢ []
      → ¬ IsQueued (schedule_task env task m) task
  unfolding Forward
  schedule_task_clears task m some_left q = elim (Option-cases (choice env m).0) [
    | inl no_worker ↦
        some_left ((select_worker-none_iff env.floats m.scheduler m.registry).0 no_worker)
    | inr (w, e) ↦
        let (before, there, _) = back q.known in
        false_not_true (
          sym (ap is_queued (get-insert_self before.tasks task.task_id (TaskStatus.assigned w)))
          ∙ ap (λ (job : JobState). is_queued (get job.tasks task.task_id))
              (some-injective _ _ (
                sym (
                  schedule_on_self env w task (record m { scheduler = (choice env m).1 }) before
                    there)
                ∙ sym (
                    ap (λ (n : Master). get n.jobs task.job_id)
                      (schedule_task_chosen env task m (some w) e))
                ∙ q.known))
          ∙ q.waiting)
  ]
    where
      back :
          {job : JobState}
          → get (schedule_task env task m).jobs task.job_id ≡ some job
          → (before : JobState) × (get m.jobs task.job_id ≡ some before) × Advances before job
      back {job} e = schedule_task-Forward task m task.job_id job e

  schedule_each_clears :
      (tasks : List Task) (m : Master) (t : Task)
      → available_workers m.registry ≢ []
      → Among t tasks
      → ¬ IsQueued (schedule_each env tasks m) t
  unfolding schedule_each Forward
  schedule_each_clears [] m t some_left mem q = mem
  schedule_each_clears (task ∷ tasks) m t some_left (inl same) q =
      let (before, there, adv) =
        schedule_each-Forward tasks (schedule_task env task m) t.job_id q.job q.known in
      schedule_task_clears task m some_left (
        subst (IsQueued (schedule_task env task m)) (sym same)
          (record { job = before; known = there; waiting = adv.queued t.task_id q.waiting }))
  schedule_each_clears (task ∷ tasks) m t some_left (inr mem) q =
      schedule_each_clears tasks (schedule_task env task m) t
        (λ e. some_left (sym (ap available_workers (schedule_task-registry task m)) ∙ e)) mem q

  entry_same :
      (i j : JobId) (v job : JobState)
      → i ≡ j
      → some v ≡ some job
      → ◌≡◌ {A = JobId × JobState} (j, job) (i, v)
  entry_same i j v job same e = cc

  -- The snapshot has the queued tasks of all jobs.
  queued_in_has :
      (jobs : HashMap JobId JobState) (t : Task) (j : JobId) (job : JobState)
      → get jobs j ≡ some job
      → Among t (queued_of env (j, job))
      → Among t (queued_in env jobs)
  unfolding queued_in get
  queued_in_has [] t j job e q = absurd (none-ne-some job e)
  queued_in_has ((i, v) ∷ jobs) t j job e q = elim (Bool-cases (i == j)) [
    | inl same ↦ Among-left (queued_of env (i, v)) (queued_in env jobs) t (
        subst (λ entry. Among t (queued_of env entry))
          (entry_same i j v job ((nat_eq.same_iff i j).0 same) (rw same at e)) q)
    | inr other ↦
        Among-right (queued_of env (i, v)) (queued_in env jobs) t
          (queued_in_has jobs t j job (rw other at e) q)
  ]

  IsQueued-snapshot :
      (m : Master) (t : Task) (q : IsQueued m t)
      → Among t (materialize_tasks (env.iter t.job_id) env.new_v5 q.job.dag t.job_id)
      → Among t (queued_tasks_snapshot env m)
  unfolding queued_tasks_snapshot
  IsQueued-snapshot m t q made =
      queued_in_has m.jobs t t.job_id q.job q.known
        (Among-keep (λ task. is_queued (get q.job.tasks task.task_id)) t _ made q.waiting)

  -- A job stays known.
  schedule_task-known :
      (task : Task) (m : Master) (j : JobId) (job : JobState)
      → get m.jobs j ≡ some job
      → (after : JobState) × (get (schedule_task env task m).jobs j ≡ some after)
  schedule_task-known task m j job there = elim (Option-cases (choice env m).0) [
    | inl no_worker ↦ rw (schedule_task_chosen env task m none no_worker) (job, there)
    | inr (w, e) ↦
        let m' = record m { scheduler = (choice env m).1 } in
        rw (schedule_task_chosen env task m (some w) e) (elim (Bool-cases (task.job_id == j)) [
          | inr other ↦ (job, schedule_on_other env w task m' j (λ same. ground arith) ∙ there)
          | inl same ↦
              let own = (nat_eq.same_iff task.job_id j).0 same in
              (
                placed w task job,
                ap (get (schedule_on env (some w) task m').jobs) (sym own)
                    ∙ schedule_on_self env w task m' job (ap (get m.jobs) own ∙ there),
              )
        ])
  ]

  schedule_each-known :
      (tasks : List Task) (m : Master) (j : JobId) (job : JobState)
      → get m.jobs j ≡ some job
      → (after : JobState) × (get (schedule_each env tasks m).jobs j ≡ some after)
  unfolding schedule_each
  schedule_each-known [] m j job there = (job, there)
  schedule_each-known (task ∷ tasks) m j job there =
      let (after, there') = schedule_task-known task m j job there in
      schedule_each-known tasks (schedule_task env task m) j after there'

  made_unqueued :
      (m : Master) (t : Task) (job : JobState)
      → available_workers m.registry ≢ []
      → get m.jobs t.job_id ≡ some job
      → Among t (materialize_tasks (env.iter t.job_id) env.new_v5 job.dag t.job_id)
      → ¬ IsQueued (schedule_all_queued_tasks env m) t
  unfolding schedule_all_queued_tasks Forward
  made_unqueued m t job some_left there made q =
      let (before, found, adv) =
        schedule_each-Forward (queued_tasks_snapshot env m) m t.job_id q.job q.known in
      schedule_each_clears (queued_tasks_snapshot env m) m t some_left
        (IsQueued-snapshot m t
          (record { job = before; known = found; waiting = adv.queued t.task_id q.waiting })
          (subst
            (λ (j : JobState).
              Among t (materialize_tasks (env.iter t.job_id) env.new_v5 j.dag t.job_id))
            (some-injective _ _ (sym there ∙ found)) made))
        q

  -- Where a worker is available, a scheduling pass leaves no task queued that it makes again from the dag
  -- of a job that the master knows, in the order in which the pass iterates the map of counters of that
  -- dag: the job is still known after the pass, and the task's status there is not Queued. A queued task
  -- that the dag does not make again under that order is none of those.
  pub schedule_all_queued_tasks_drains :
      (m : Master) (j : JobId) (job : JobState) (t : Task)
      → available_workers m.registry ≢ []
      → get m.jobs j ≡ some job
      → Among t (materialize_tasks (env.iter j) env.new_v5 job.dag j)
      → (after : JobState) × (get (schedule_all_queued_tasks env m).jobs j ≡ some after)
        × (is_queued (get after.tasks t.task_id) ≡ false)
  unfolding schedule_all_queued_tasks
  schedule_all_queued_tasks_drains m j job t some_left there made =
      let (after, kept) = schedule_each-known (queued_tasks_snapshot env m) m j job there in
      let own : t.job_id ≡ j =
        All-Among (λ (t : Task). t.job_id ≡ j) t _
          (materialize_tasks_job (env.iter j) env.new_v5 job.dag j) made in
      (
        after,
        kept,
        elim (Bool-cases (is_queued (get after.tasks t.task_id))) [
          | inr other ↦ other
          | inl waiting ↦ absurd (
              made_unqueued m t job some_left (ap (get m.jobs) own ∙ there)
                (subst (λ j. Among t (materialize_tasks (env.iter j) env.new_v5 job.dag j))
                  (sym own) made)
                (record {
                  job = after;
                  known = ap (get (schedule_all_queued_tasks env m).jobs) own ∙ kept;
                  waiting = waiting;
                }))
        ],
      )

-- ===== src/Worker/Executor/Retries.antt =====
-- How often `execute_task` of src/worker/executor.rs tries a task, and what it counts.
use distributed_processing_e.Base.{
  ℕ, zero, suc, ◌+◌, ◌-◌, ◌%◌, ◌^◌, ◌≤◌, ◌<◌, ◌≡◌, inl, inr, refl, sym, ap, ◌∙◌, Bool, true, false,
  ◌&&◌, leb, Option, none, some, arith, if◌then◌else◌, Bool-cases, false_not_true,
}
use distributed_processing_e.Base.Words.{add_usize, saturating_sub}
use distributed_processing_e.Types.{Task, TaskResult, TaskStatus}
use distributed_processing_e.Worker.Disk.{Disk}
use distributed_processing_e.Worker.Executor.{
  Executor, Attempt, execute_once, is_failed, counted, release, attempts, execute_task,
}
use distributed_processing_e.Worker.Executor.Reports.{IsReport, execute_once-IsReport}
use distributed_processing_e.Worker.Pipeline.{Engine}

-- The counters are numbers of 64 bits.
pub record Fits (e : Executor) : Type 0 where
  pub failed : e.tasks_failed < 2 ^ 64
  pub completed : e.tasks_completed < 2 ^ 64

abbrev one_if : Bool → ℕ
one_if true = 1
one_if false = 0

-- The task is done with after `retries` failed attempts before the last one: the last report, and the
-- executor after it.
pub record IsFinished (e : Executor) (task : Task) (done retries : ℕ) (r : TaskResult)
    (e' : Executor) : Type 0 where
  pub bounded : done + retries ≤ e.config.task_retry_limit
  pub exhausted : is_failed r.status ≡ true → done + retries ≡ e.config.task_retry_limit
  pub report : IsReport e.store task r
  pub failed : e'.tasks_failed ≡ (e.tasks_failed + retries + one_if (is_failed r.status)) % 2 ^ 64
  pub completed :
      e'.tasks_completed ≡ (e.tasks_completed + (1 - one_if (is_failed r.status))) % 2 ^ 64
  pub idle : e'.active_task ≡ none
  pub permits : e'.permits ≡ e.permits
  pub config : e'.config ≡ e.config

counted_failed :
    (r : TaskResult) (status : TaskStatus) (e : Executor)
    → is_failed status ≡ true
    → counted r status e ≡ record e { tasks_failed = add_usize e.tasks_failed 1 }
counted_failed r (TaskStatus.failed m) e h = refl
counted_failed r TaskStatus.queued e h = cc
counted_failed r (TaskStatus.assigned w) e h = cc
counted_failed r (TaskStatus.running w) e h = cc
counted_failed r TaskStatus.completed e h = cc
counted_failed r (TaskStatus.retrying n) e h = cc

counted_completed :
    (r : TaskResult) (e : Executor) (status : TaskStatus)
    → status ≡ TaskStatus.completed
    → counted r status e ≡ record e {
      tasks_completed = add_usize e.tasks_completed 1;
      records_processed = add_usize e.records_processed r.metrics.processed_records;
    }
counted_completed r e status h = rw h

not_failed : (status : TaskStatus) → status ≡ TaskStatus.completed → is_failed status ≡ false
not_failed status h = rw h

module _ {V M N : Type 0} (eng : Engine V M N) (events : ℕ → Attempt) (task : Task) where
  abbrev Finishes : ℕ → ℕ → Executor → Disk → Type 0
  Finishes fuel done e d =
      (r : TaskResult) × (e' : Executor) × (d' : Disk) × (retries : ℕ) × (attempts eng events fuel
          done task (e, d)
        ≡ some (r, e', d'))
      × IsFinished e task done retries r e'

  -- One round from the executor `e`.
  module _ (fuel done : ℕ) (e : Executor) (d : Disk) where
    abbrev active : Executor
    active = record e { active_task = some task.task_id }

    abbrev tried : TaskResult × Disk
    tried = execute_once eng active task (events (done + 1)) d

    abbrev after_failure : Executor
    after_failure = record active { tasks_failed = add_usize e.tasks_failed 1 }

    abbrev goes_on : Executor → Bool → Option (TaskResult × Executor × Disk)
    goes_on x failed =
        let again = attempts eng events fuel (done + 1) task (x, tried.1) in
        if failed && leb (done + 1) x.config.task_retry_limit
        then again
        else some (tried.0, record x { active_task = none }, tried.1)

    attempts_failed :
        is_failed tried.0.status ≡ true
        → attempts eng events (suc fuel) done task (e, d) ≡ goes_on after_failure true
    unfolding attempts
    attempts_failed h =
        ap (λ x. goes_on x (is_failed tried.0.status))
          (counted_failed tried.0 tried.0.status active h)
        ∙ ap (goes_on after_failure) h

    completed-Finishes :
        Fits e
        → suc fuel + done ≡ e.config.task_retry_limit + 1
        → tried.0.status ≡ TaskStatus.completed
        → Finishes (suc fuel) done e d
    unfolding attempts
    completed-Finishes bound enough h = (
      tried.0,
      record (counted tried.0 TaskStatus.completed active) { active_task = none },
      tried.1,
      0,
      ap (λ status. goes_on (counted tried.0 status active) (is_failed status)) h,
      record {
        bounded = omega arith;
        exhausted = λ f. absurd (false_not_true (sym (not_failed tried.0.status h) ∙ f));
        report = execute_once-IsReport eng active task (events (done + 1)) d;
        failed = rw (not_failed tried.0.status h) (omega (arith, bound.failed));
        completed = rw (not_failed tried.0.status h) refl;
        idle = refl;
        permits = refl;
        config = refl;
      },
    )

    -- A failed attempt and then the rest of the loop.
    retried-Finishes :
        is_failed tried.0.status ≡ true
        → leb (done + 1) e.config.task_retry_limit ≡ true
        → Finishes fuel (done + 1) after_failure tried.1
        → Finishes (suc fuel) done e d
    retried-Finishes h more (r, e', d', retries, runs, fin) = (
      r,
      e',
      d',
      suc retries,
      attempts_failed h ∙ rw more runs,
      record {
        bounded = omega (arith, fin.bounded);
        exhausted = λ f. omega (arith, fin.exhausted f);
        report = fin.report;
        failed = omega (arith, fin.failed);
        completed = fin.completed;
        idle = fin.idle;
        permits = fin.permits;
        config = fin.config;
      },
    )

    -- A failed attempt that was the last one.
    given_up-Finishes :
        Fits e
        → suc fuel + done ≡ e.config.task_retry_limit + 1
        → is_failed tried.0.status ≡ true
        → leb (done + 1) e.config.task_retry_limit ≡ false
        → Finishes (suc fuel) done e d
    given_up-Finishes bound enough h last = (
      tried.0,
      record after_failure { active_task = none },
      tried.1,
      0,
      attempts_failed h ∙ rw last refl,
      record {
        bounded = omega arith;
        exhausted = λ f. ground arith;
        report = execute_once-IsReport eng active task (events (done + 1)) d;
        failed = rw h (omega arith);
        completed = rw h (omega (arith, bound.completed));
        idle = refl;
        permits = refl;
        config = refl;
      },
    )

  attempts-IsFinished :
      (fuel done : ℕ) (e : Executor) (d : Disk)
      → Fits e
      → fuel + done ≡ e.config.task_retry_limit + 1
      → 0 < fuel
      → Finishes fuel done e d
  unfolding attempts
  attempts-IsFinished zero done e d bound enough some_left = absurd (omega arith)
  attempts-IsFinished (suc fuel) done e d bound enough some_left =
      elim (execute_once-IsReport eng (active fuel done e d) task (events (done + 1)) d).settled [
        | inl success ↦ completed-Finishes fuel done e d bound enough success
        | inr (m, failure) ↦
            let h = ap is_failed failure in
            elim (Bool-cases (leb (done + 1) e.config.task_retry_limit)) [
              | inl more ↦ retried-Finishes fuel done e d h more (
                  attempts-IsFinished fuel (done + 1) (after_failure fuel done e d)
                    (tried fuel done e d).1
                    (record { failed = omega arith; completed = bound.completed }) (omega arith)
                    (ground arith))
              | inr last ↦ given_up-Finishes fuel done e d bound enough h last
            ]
      ]

  -- Where a permit is free, the loop of `execute_task` ends, whatever happens to each attempt: within the
  -- retry limit and one attempt more, with a report on the task, which is a failure only where the
  -- limit is used up. The failed and the completed attempts are counted, no task is active then, and
  -- the permit is free again.
  pub execute_task_finishes :
      (e : Executor) (d : Disk)
      → Fits e
      → 0 < e.permits
      → (r : TaskResult) × (e' : Executor) × (d' : Disk) × (retries : ℕ) × (execute_task eng events
            task
            (e, d)
          ≡ some (r, e', d'))
        × IsFinished e task 0 retries r e'
  unfolding execute_task
  execute_task_finishes e d fits free =
      let (r, e', d', retries, runs, fin) =
        attempts-IsFinished (e.config.task_retry_limit + 1) 0
          (record e { permits = saturating_sub e.permits 1 }) d
          (record { failed = fits.failed; completed = fits.completed }) (omega arith)
          (omega arith) in
      (
        r,
        record e' { permits = e'.permits + 1 },
        d',
        retries,
        ap release runs,
        record {
          bounded = fin.bounded;
          exhausted = fin.exhausted;
          report = fin.report;
          failed = fin.failed;
          completed = fin.completed;
          idle = fin.idle;
          permits = omega (arith, fin.permits);
          config = fin.config;
        },
      )

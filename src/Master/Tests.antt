-- ===== src/Master/Tests.antt =====
-- The master's theorems at one worker and a word count.
use distributed_processing_e.Base.{
  Among, inl, false, ℕ, ◌≡◌, ◌≢◌, refl, Option, some, none, List, [], ◌∷◌, ◌++◌, inl, String,
}
use distributed_processing_e.Base.Eq.{nat_eq}
use distributed_processing_e.Base.Map.{get, modify}
use distributed_processing_e.Base.Outcome.{ok, err}
use distributed_processing_e.Base.Words.{add_usize}
use distributed_processing_e.Dag.{task_for, planned_nodes, materialize_tasks, validate}
use distributed_processing_e.Master.Acceptance.{submit_job_verdict, submit_job_refused}
use distributed_processing_e.Master.Assignment.{IsPlacement, schedule_task-IsPlacement}
use distributed_processing_e.Master.Completion.{
  complete_task, settle_report, note_status, note_completed, persist_progress,
}
use distributed_processing_e.Master.Completion.Reports.{
  IsCompletion, IsFailure, complete_task-IsCompletion, complete_task-IsFailure, complete_task_twice,
}
use distributed_processing_e.Master.Counting.{IsConsistent, run-IsConsistent}
use distributed_processing_e.Master.Draining.{schedule_all_queued_tasks_drains}
use distributed_processing_e.Master.Durability.{IsDurable}
use distributed_processing_e.Master.Events.{Event, run, step}
use distributed_processing_e.Master.Recovery.{
  new, restore_jobs, restore_tasks, to_requeue, requeue_all,
}
use distributed_processing_e.Master.Requeueing.{new_tasks}
use distributed_processing_e.Master.Restart.{new-IsDurable, new-run, IsSound}
use distributed_processing_e.Master.Scheduling.{
  mark_running, persist_running, dispatch, schedule_each, schedule_task, schedule_all_queued_tasks,
}
use distributed_processing_e.Master.State.{Orders, is_queued, JobState, Master}
use distributed_processing_e.Master.Submission.{
  submit_job, initial_job, persist_submission, persist_queued,
}
use distributed_processing_e.Master.Survival.{run-IsDurable}
use distributed_processing_e.Master.Workers.{register_worker}
use distributed_processing_e.Registry.{available_workers, get_worker, add_worker}
use distributed_processing_e.Samples.{text_number, env, config, word_count, ann, report}
use distributed_processing_e.Scheduler.{
  select_worker, walk, compute_load, min_of, default_scheduler,
}
use distributed_processing_e.Spec.{OperatorType}
use distributed_processing_e.StateStore.{
  StateStore, new_tables, transact, query, load_all_jobs, load_all_tasks, persist_task_result,
  persist_task_status, persist_job, persist_job_status,
}
use distributed_processing_e.Types.{JobStatus, TaskStatus, TaskResult, default_job_metrics, Task}

-- Unfolds what the runs below compute.
program : Unit {0}
unfolding run step new submit_job materialize_tasks validate get persist_submission persist_job
    transact persist_queued persist_task_status text_number register_worker add_worker query
    load_all_jobs load_all_tasks restore_jobs restore_tasks requeue_all to_requeue schedule_each
    schedule_task select_worker available_workers walk compute_load min_of dispatch get_worker
    mark_running modify initial_job persist_running complete_task persist_task_result
program = tt

abbrev empty_store : StateStore
empty_store = record { tables = new_tables; faults = [] }

-- A store with a job that has one task, which was running.
abbrev old_store : StateStore
old_store = record {
  tables = record new_tables {
    jobs = (1, record { status = JobStatus.running; dag = word_count }) ∷ [];
    tasks = (5, record { job_id = 1; status = TaskStatus.running 7; result = none }) ∷ [];
  };
  faults = [];
}

old_store-IsSound : IsSound old_store
unfolding get
old_store-IsSound = record { clean = refl; distinct = (refl, tt); referential = ((_, refl), tt) }

-- A job with two tasks, one of which a worker has.
abbrev job : JobState
job = record {
  dag = word_count;
  status = JobStatus.running;
  tasks = (5, TaskStatus.assigned 7) ∷ (6, TaskStatus.queued) ∷ [];
  results = [];
  metrics = record default_job_metrics { total_tasks = 2; pending_tasks = 2 };
  error = none;
}

abbrev master : Master
master = record {
  config = config;
  registry = record { workers = (7, ann) ∷ [] };
  scheduler = default_scheduler;
  jobs = (1, job) ∷ [];
  state_store = old_store;
  sent = [];
  spawned = 0;
}

abbrev task : Task
task = record {
  task_id = 6;
  job_id = 1;
  stage_id = 2;
  attempt = 0;
  operator = OperatorType.identity;
  operators = [];
  operator_ids = [];
  incoming_edges = [];
  partition = 1;
  input_uri = "words.txt";
  input_format = "txt";
  total_partitions = 2;
}

known : get master.jobs 1 ≡ some job
unfolding get
known = refl

some_available : available_workers master.registry ≢ []
unfolding available_workers
some_available e = cc

abbrev done : TaskResult
done = report 1 5 TaskStatus.completed

abbrev lost : TaskResult
lost = report 1 5 (TaskStatus.failed "disk full")

stored_done : (complete_task env done master).0 ≡ ok tt
unfolding complete_task get persist_task_result transact
stored_done = refl

stored_lost : (complete_task env lost master).0 ≡ ok tt
unfolding complete_task get persist_task_result transact
stored_lost = refl

completion_example :
    (new : JobState) × (get (complete_task env done master).1.jobs 1 ≡ some new)
    × IsCompletion done job new
completion_example = complete_task-IsCompletion env done master job known refl stored_done

failure_example :
    (new : JobState) × (get (complete_task env lost master).1.jobs 1 ≡ some new)
    × IsFailure lost "disk full" job new
failure_example = complete_task-IsFailure env lost master job "disk full" known refl stored_lost

one_not_two : ◌≢◌ {A = ℕ} 1 2
one_not_two e = cc

schedule_task-IsPlacement_example : IsPlacement env task job master (schedule_task env task master)
unfolding get
schedule_task-IsPlacement_example =
    schedule_task-IsPlacement env task master job
      (record { distinct = (refl, tt); keyed = (refl, tt) }) (inl refl) some_available known

verdict_example :
    ((validate word_count ≡ ok tt) → (submit_job env 2 word_count master).0 ≡ ok 2)
    × ((e : String)
        → validate word_count ≡ err e
        → submit_job env 2 word_count master ≡ (err e, master))
verdict_example = submit_job_verdict env 2 word_count master refl

-- The disk is full when the second task row is to be written.
abbrev full : Master
full = record master {
  state_store = record old_store { faults = none ∷ none ∷ some "disk full" ∷ [] };
}

full_refuses : (submit_job env 2 word_count full).0 ≡ err "disk full"
unfolding program
full_refuses = refl

refused_example :
    (submit_job env 2 word_count full).1
    ≡ record full { state_store = (submit_job env 2 word_count full).1.state_store }
refused_example = submit_job_refused env 2 word_count full "disk full" full_refuses

abbrev events : List (Orders × Event)
events = (env.iter, Event.registers ann) ∷ (env.iter, Event.submits 1 word_count) ∷ []

-- The first task of the job's dag, and a master in which it waits.
abbrev remade : Task
remade =
    task_for (env.iter 1) env.new_v5 word_count 1 ("words.txt", "txt")
      (planned_nodes (env.iter 1) word_count) 0

abbrev waiting_job : JobState
waiting_job = record job { tasks = (remade.task_id, TaskStatus.queued) ∷ [] }

abbrev waiting : Master
waiting = record master { jobs = (1, waiting_job) ∷ [] }

waiting_known : get waiting.jobs 1 ≡ some waiting_job
unfolding get
waiting_known = refl

waiting_made : Among remade (materialize_tasks (env.iter 1) env.new_v5 word_count 1)
unfolding program
waiting_made = inl refl

drains_example :
    (after : JobState) × (get (schedule_all_queued_tasks env waiting).jobs 1 ≡ some after)
    × (is_queued (get after.tasks remade.task_id) ≡ false)
drains_example =
    schedule_all_queued_tasks_drains env waiting 1 waiting_job remade some_available waiting_known
      waiting_made

new_tasks_example :
    ((job : JobState) × (get (new config old_store).jobs 1 ≡ some job)
      × (get job.tasks 5 ≡ some TaskStatus.queued))
    × (get (new config old_store).state_store.tables.tasks 5
        ≡ some (record { job_id = 1; status = TaskStatus.queued; result = none }))
unfolding get
new_tasks_example =
    new_tasks config old_store 5
      (record { job_id = 1; status = TaskStatus.running 7; result = none }) refl (refl, tt) refl

-- The job of a run, once it is computed.
abbrev or_sample : Option JobState → JobState
or_sample none = job
or_sample (some found) = found

abbrev ran : Master
ran = run env events (new config empty_store)

ran_job : get ran.jobs 1 ≡ some (or_sample (get ran.jobs 1))
unfolding program
ran_job = refl

empty_store-IsSound : IsSound empty_store
empty_store-IsSound = record { clean = refl; distinct = tt; referential = tt }

new-run_example :
    (again : JobState) × (get (new config ran.state_store).jobs 1 ≡ some again)
    × (again.dag ≡ (or_sample (get ran.jobs 1)).dag)
    × (again.status ≡ (or_sample (get ran.jobs 1)).status)
new-run_example =
    new-run env config config empty_store events 1 (or_sample (get ran.jobs 1)) empty_store-IsSound
      ran_job

IsConsistent_example : IsConsistent (or_sample (get ran.jobs 1))
IsConsistent_example =
    run-IsConsistent env config empty_store events 1 (or_sample (get ran.jobs 1)) ran_job

run-IsDurable_example : IsDurable ran
run-IsDurable_example =
    run-IsDurable env events (new config empty_store)
      (new-IsDurable config empty_store empty_store-IsSound)

stored_again : (complete_task env done (complete_task env done master).1).0 ≡ ok tt
unfolding program settle_report note_completed note_status persist_progress persist_job_status
stored_again = refl

twice_example :
    (new : JobState) × (get (complete_task env done (complete_task env done master).1).1.jobs 1
      ≡ some new)
    × (new.results ≡ job.results ++ done ∷ done ∷ [])
    × (new.metrics.completed_tasks ≡ add_usize job.metrics.completed_tasks 2)
twice_example = complete_task_twice env done master job known refl stored_done stored_again

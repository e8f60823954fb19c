-- ===== src/Master/State.antt =====
-- The fields of `Master` and `JobState`, and the pieces that its methods share.
use distributed_processing_e.Base.{
  ℕ, String, Bool, true, false, Option, some, List, map, if◌then◌else◌,
}
use distributed_processing_e.Base.Eq.{◌==◌, nat_eq}
use distributed_processing_e.Base.Floats.{Floats, F32, f32_zero, f32_hundred}
use distributed_processing_e.Base.Map.{HashMap, modify}
use distributed_processing_e.Config.{Config}
use distributed_processing_e.Registry.{Registry}
use distributed_processing_e.Scheduler.{RoundRobinScheduler}
use distributed_processing_e.Spec.{DagSpecification}
use distributed_processing_e.StateStore.{StateStore}
use distributed_processing_e.Types.{
  JobId, TaskId, JobStatus, TaskStatus, Task, TaskResult, JobMetrics,
}

-- The orders in which the maps `HashMap<String, usize>` of one handler are iterated. Every map that Rust
-- makes has an order of its own: the number tells them apart.
abbrev pub Orders : Type 0
Orders = ℕ → HashMap String ℕ → HashMap String ℕ

-- What the handlers use and src/ does not define: the `f32` operations, the iteration orders of maps,
-- and the `uuid` crate's name-based identifiers and their text.
pub record Env : Type 0 where
  pub floats : Floats
  pub iter : Orders
  pub new_v5 : ℕ → String → ℕ
  pub uuid_text : ℕ → String

abbrev pub with_orders : Env → Orders → Env
with_orders env orders = record env { iter = orders }

pub record JobState : Type 0 where
  pub dag : DagSpecification
  pub status : JobStatus
  pub tasks : HashMap TaskId TaskStatus
  pub results : List TaskResult
  pub metrics : JobMetrics
  pub error : Option String

-- `sent` is what was posted to workers, newest first; `spawned` counts the background runs of
-- `schedule_all_queued_tasks` that were started and have not run yet.
pub record Master : Type 0 where
  pub config : Config
  pub registry : Registry
  pub scheduler : RoundRobinScheduler
  pub jobs : HashMap JobId JobState
  pub state_store : StateStore
  pub sent : List (String × Task)
  pub spawned : ℕ

-- A method that returns nothing but the new state, and one that may fail.
abbrev pub with_store : Master → StateStore → Master
with_store m s = record m { state_store = s }

-- A write through the reference that `jobs.get_mut(&job_id)` gave.
abbrev pub put_job : Master → JobId → JobState → Master
put_job m job_id job = record m { jobs = modify m.jobs job_id (λ _. job) }

-- `completed_tasks as f32 / total_tasks as f32 * 100.0`, and 0.0 of no tasks.
unfoldable pub progress_of : Floats → JobMetrics → F32
progress_of fl metrics =
    if metrics.total_tasks == 0
    then f32_zero
    else fl.mul (fl.div (fl.of_usize metrics.completed_tasks) (fl.of_usize metrics.total_tasks))
        f32_hundred

abbrev pub output_paths : List TaskResult → List String
output_paths = map (λ r. r.result_location.path)

abbrev pub is_running : JobStatus → Bool
is_running JobStatus.running = true
is_running _ = false

abbrev pub is_completed : TaskStatus → Bool
is_completed TaskStatus.completed = true
is_completed _ = false

abbrev pub is_queued : Option TaskStatus → Bool
is_queued (some TaskStatus.queued) = true
is_queued _ = false

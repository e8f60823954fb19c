-- ===== src/Master/Events.antt =====
-- A run of the master: what reaches it over HTTP, from its clock and from the tasks that it spawned,
-- one event after the other.
use distributed_processing_e.Base.{List, [], ◌∷◌}
use distributed_processing_e.Master.Completion.{complete_task}
use distributed_processing_e.Master.State.{Env, Orders, with_orders, Master}
use distributed_processing_e.Master.Submission.{submit_job}
use distributed_processing_e.Master.Workers.{
  register_worker, handle_heartbeat, garbage_collect_workers, run_background,
}
use distributed_processing_e.Spec.{DagSpecification}
use distributed_processing_e.Types.{JobId, WorkerInfo, HeartbeatMessage, SystemTime, TaskResult}

pub data Event : Type 0 where
  submits : JobId → DagSpecification → Event
  reports : TaskResult → Event
  registers : WorkerInfo → Event
  beats : SystemTime → HeartbeatMessage → Event
  sweeps : SystemTime → Event
  schedules : Event

module _ (env : Env) where
  unfoldable pub step : Event → Master → Master
  step (submits job_id dag) m = (submit_job env job_id dag m).1
  step (reports result) m = (complete_task env result m).1
  step (registers info) m = (register_worker info m).1
  step (beats now hb) m = handle_heartbeat now hb m
  step (sweeps now) m = garbage_collect_workers now m
  step schedules m = run_background env m

-- Each event comes with the orders in which the maps that its handler makes are iterated.
module _ (env : Env) where
  unfoldable pub run : List (Orders × Event) → Master → Master
  unfolding step
  run [] m = m
  run ((orders, e) ∷ es) m = run es (step (with_orders env orders) e m)

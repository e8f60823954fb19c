-- ===== src/Master/Workers.antt =====
-- What workers and the clock do to the master: `register_worker`, `handle_heartbeat` and
-- `garbage_collect_workers` of src/master/mod.rs. The current time is an argument.
use distributed_processing_e.Base.{ℕ, zero, suc, ◌+◌, ◌*◌, ◌^◌}
use distributed_processing_e.Base.Outcome.{Outcome, ok}
use distributed_processing_e.Base.Words.{mul_usize}
use distributed_processing_e.Master.Scheduling.{schedule_all_queued_tasks}
use distributed_processing_e.Master.State.{Env, Master, with_store}
use distributed_processing_e.Registry.{add_worker, record_heartbeat, mark_stale_workers}
use distributed_processing_e.StateStore.{persist_worker_metrics}
use distributed_processing_e.Types.{
  WorkerId, WorkerInfo, HeartbeatMessage, SystemTime, WorkerStatus,
}

-- A `tokio::spawn` of `schedule_all_queued_tasks` only starts it.
unfoldable pub register_worker : WorkerInfo → Master → Outcome WorkerId × Master
register_worker info m =
    (ok info.id, record m { registry = add_worker m.registry info; spawned = m.spawned + 1 })

unfoldable pub handle_heartbeat : SystemTime → HeartbeatMessage → Master → Master
handle_heartbeat now hb m =
    let registry' = record_heartbeat m.registry now hb.worker_id hb.metrics hb.address in
    let stored =
      (persist_worker_metrics now hb.worker_id WorkerStatus.active hb.metrics m.state_store).1 in
    record (with_store m stored) { registry = registry'; spawned = m.spawned + 1 }

-- Milliseconds, as a `Duration` in nanoseconds.
abbrev pub deadline_ns : ℕ → ℕ
deadline_ns heartbeat_interval_ms = mul_usize heartbeat_interval_ms 2 * 10 ^ 6

unfoldable pub garbage_collect_workers : SystemTime → Master → Master
garbage_collect_workers now m = record m {
  registry = mark_stale_workers m.registry now (deadline_ns m.config.heartbeat_interval_ms);
}

abbrev pub run_spawned : Env → ℕ → Master → Master
run_spawned env zero m = m
run_spawned env (suc n) m = schedule_all_queued_tasks env (record m { spawned = n })

-- One of the background runs that were started.
unfoldable pub run_background : Env → Master → Master
run_background env m = run_spawned env m.spawned m

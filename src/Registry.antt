-- ===== src/Registry.antt =====
-- The master's table of workers: src/master/registry.rs. `SystemTime::now()` is an argument.
pub mod Staleness
pub mod Availability
mod Tests
use distributed_processing_e.Base.{
  ℕ, ◌-◌, String, Bool, true, false, ◌&&◌, Option, none, some, List, [], map, keep, ltb, leb,
  if◌then◌else◌,
}
use distributed_processing_e.Base.Map.{HashMap, get, insert, remove, modify, values}
use distributed_processing_e.Base.Eq.{nat_eq}
use distributed_processing_e.Types.{
  WorkerId, WorkerInfo, WorkerMetrics, WorkerStatus, SystemTime, active, down,
}

pub record Registry : Type 0 where
  pub workers : HashMap WorkerId WorkerInfo

abbrev pub empty : Registry
empty = record { workers = [] }

unfoldable pub add_worker : Registry → WorkerInfo → Registry
add_worker r info = record { workers = insert r.workers info.id info }

unfoldable pub remove_worker : Registry → WorkerId → Registry
remove_worker r worker_id = record { workers = remove r.workers worker_id }

unfoldable pub update_status : Registry → WorkerId → WorkerStatus → Registry
update_status r worker_id status = record {
  workers = modify r.workers worker_id (λ w. record w { status = status });
}

-- A known worker keeps its address; an unknown one is registered with the address that it sends.
unfoldable pub record_heartbeat :
    Registry → SystemTime → WorkerId → WorkerMetrics → String → Registry
record_heartbeat r now worker_id metrics address = elim (get r.workers worker_id) [
  | some _ ↦ record {
    workers =
        modify r.workers worker_id
          (λ w. record w { last_heartbeat = now; metrics = metrics; status = active });
  }
  | none ↦ record {
    workers = insert r.workers worker_id (record {
      id = worker_id;
      address = address;
      status = active;
      last_heartbeat = now;
      metrics = metrics;
    });
  }
]

unfoldable pub get_worker : Registry → WorkerId → Option WorkerInfo
get_worker r worker_id = get r.workers worker_id

abbrev pub is_active : WorkerStatus → Bool
is_active active = true
is_active _ = false

unfoldable pub available_workers : Registry → List WorkerInfo
available_workers r = keep (λ w. is_active w.status) (values r.workers)

-- `now.duration_since(t)` is an error, and the worker is left alone, where `t` lies after `now`.
abbrev pub is_stale : SystemTime → ℕ → WorkerInfo → Bool
is_stale now grace w =
    is_active w.status && leb w.last_heartbeat now && ltb grace (now - w.last_heartbeat)

abbrev pub mark_if_stale : SystemTime → ℕ → WorkerInfo → WorkerInfo
mark_if_stale now grace w = if is_stale now grace w then record w { status = down } else w

unfoldable pub mark_stale_workers : Registry → SystemTime → ℕ → Registry
mark_stale_workers r now grace = record {
  workers = map (λ (k, w). (k, mark_if_stale now grace w)) r.workers;
}

-- ===== src/Registry/Staleness.antt =====
-- What heartbeats and the watchdog do to the workers that the registry shows.
use distributed_processing_e.Base.{
  ℕ, ◌+◌, ◌≡◌, refl, Bool, ◌&&◌, Option, none, some, [], ◌∷◌, map, String, ltb, arith,
  if◌then◌else◌,
}
use distributed_processing_e.Base.Eq.{◌==◌, nat_eq}
use distributed_processing_e.Base.Map.{HashMap, get, get-insert, get-modify}
use distributed_processing_e.Registry.{
  Registry, record_heartbeat, get_worker, mark_stale_workers, mark_if_stale, is_active,
}
use distributed_processing_e.Types.{WorkerId, WorkerInfo, WorkerMetrics, active, down}

-- What a worker looks like after its heartbeat.
abbrev pub heard : ℕ → WorkerId → WorkerMetrics → String → Option WorkerInfo → WorkerInfo
heard now id metrics address (some w) = record w {
  last_heartbeat = now;
  metrics = metrics;
  status = active;
}
heard now id metrics address none = record {
  id = id;
  address = address;
  status = active;
  last_heartbeat = now;
  metrics = metrics;
}

-- After a heartbeat its worker is active, with the metrics and the time of the heartbeat; a known
-- worker keeps the address of its registration, an unknown one has the address it sent. No other
-- worker changes.
get_worker-record_heartbeat :
    (r : Registry) (now id : ℕ) (metrics : WorkerMetrics) (address : String) (j : WorkerId)
    → get_worker (record_heartbeat r now id metrics address) j
      ≡ (if id == j then some (heard now id metrics address (get_worker r id)) else get_worker r j)
unfolding record_heartbeat get_worker
get_worker-record_heartbeat r now id metrics address j = ground (
  arith,
  get-insert r.workers id (heard now id metrics address none) j,
  get-modify r.workers id
      (λ w. record w { last_heartbeat = now; metrics = metrics; status = active }) j,
)

get-map :
    (f : WorkerInfo → WorkerInfo) (m : HashMap WorkerId WorkerInfo) (j : WorkerId)
    → get (map (λ (k, w). (k, f w)) m) j ≡ elim (get m j) [ none ↦ none | some w ↦ some (f w) ]
unfolding get
get-map f [] j = refl
get-map f ((k, w) ∷ m) j = ground (arith, get-map f m j)

-- The grace period has run out, by a sum that does not stop at zero.
abbrev pub overdue : ℕ → ℕ → WorkerInfo → Bool
overdue now grace w = is_active w.status && ltb (w.last_heartbeat + grace) now

-- The watchdog marks as down exactly the active workers whose last heartbeat is more than the grace
-- period ago, and changes nothing else about any worker.
pub get_worker-mark_stale_workers :
    (r : Registry) (now grace : ℕ) (j : WorkerId) (w : WorkerInfo)
    → get_worker r j ≡ some w
    → get_worker (mark_stale_workers r now grace) j
      ≡ some (if overdue now grace w then record w { status = down } else w)
unfolding mark_stale_workers get_worker
get_worker-mark_stale_workers r now grace j w h =
    ground (arith, get-map (mark_if_stale now grace) r.workers j)

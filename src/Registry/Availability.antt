-- ===== src/Registry/Availability.antt =====
-- A registry is well formed when each worker stands once, under its own identifier; its available
-- workers are then exactly the active ones.
use distributed_processing_e.Base.{
  ℕ, ◌≡◌, refl, ◌↔◌, Option, none, some, List, [], ◌∷◌, map, String, arith, Among, Among-keep,
  keep-Among, inl, inr,
}
use distributed_processing_e.Base.Eq.{nat_eq}
use distributed_processing_e.Base.Map.{
  HashMap, get, insert, modify, remove, values, Distinct, insert-Distinct, modify-Distinct,
  remove-Distinct,
}
use distributed_processing_e.Registry.{
  Registry, empty, add_worker, remove_worker, update_status, record_heartbeat, get_worker,
  available_workers, mark_stale_workers, mark_if_stale, is_active,
}
use distributed_processing_e.Types.{WorkerId, WorkerInfo, WorkerMetrics, WorkerStatus, active}

-- Each entry's key is its worker's identifier.
abbrev pub IsKeyed : HashMap WorkerId WorkerInfo → Type 0
IsKeyed [] = Unit
IsKeyed ((k, w) ∷ m) = (w.id ≡ k) × IsKeyed m

pub record IsWellFormed (r : Registry) : Type 0 where
  pub distinct : Distinct r.workers
  pub keyed : IsKeyed r.workers

insert-IsKeyed :
    (m : HashMap WorkerId WorkerInfo) (k : WorkerId) (w : WorkerInfo)
    → w.id ≡ k
    → IsKeyed m
    → IsKeyed (insert m k w)
unfolding insert
insert-IsKeyed [] k w e h = (e, tt)
insert-IsKeyed ((j, v) ∷ m) k w e h = ground (arith, insert-IsKeyed m k w e h.1)

modify-IsKeyed :
    (m : HashMap WorkerId WorkerInfo) (k : WorkerId) (f : WorkerInfo → WorkerInfo)
    → ((w : WorkerInfo) → (f w).id ≡ w.id)
    → IsKeyed m
    → IsKeyed (modify m k f)
unfolding modify
modify-IsKeyed [] k f same h = tt
modify-IsKeyed ((j, v) ∷ m) k f same h = ground (arith, same v, modify-IsKeyed m k f same h.1)

remove-IsKeyed : (m : HashMap WorkerId WorkerInfo) (k : WorkerId) → IsKeyed m → IsKeyed (remove m k)
unfolding remove
remove-IsKeyed [] k h = tt
remove-IsKeyed ((j, v) ∷ m) k h = ground (arith, remove-IsKeyed m k h.1)

pub add_worker-IsWellFormed :
    (r : Registry) (info : WorkerInfo) → IsWellFormed r → IsWellFormed (add_worker r info)
unfolding add_worker
add_worker-IsWellFormed r info h = record {
  distinct = insert-Distinct r.workers info.id info h.distinct;
  keyed = insert-IsKeyed r.workers info.id info refl h.keyed;
}

pub remove_worker-IsWellFormed :
    (r : Registry) (id : WorkerId) → IsWellFormed r → IsWellFormed (remove_worker r id)
unfolding remove_worker
remove_worker-IsWellFormed r id h = record {
  distinct = remove-Distinct r.workers id h.distinct;
  keyed = remove-IsKeyed r.workers id h.keyed;
}

pub update_status-IsWellFormed :
    (r : Registry) (id : WorkerId) (status : WorkerStatus)
    → IsWellFormed r
    → IsWellFormed (update_status r id status)
unfolding update_status
update_status-IsWellFormed r id status h = record {
  distinct = modify-Distinct r.workers id _ h.distinct;
  keyed = modify-IsKeyed r.workers id _ (λ w. refl) h.keyed;
}

pub record_heartbeat-IsWellFormed :
    (r : Registry) (now id : ℕ) (metrics : WorkerMetrics) (address : String)
    → IsWellFormed r
    → IsWellFormed (record_heartbeat r now id metrics address)
unfolding record_heartbeat
record_heartbeat-IsWellFormed r now id metrics address h = go (get r.workers id)
  where
    fresh : WorkerInfo
    fresh = record {
      id = id;
      address = address;
      status = active;
      last_heartbeat = now;
      metrics = metrics;
    }

    go :
        (found : Option WorkerInfo)
        → IsWellFormed (elim found [
          | some _ ↦ record {
            workers =
                modify r.workers id
                  (λ w. record w { last_heartbeat = now; metrics = metrics; status = active });
          }
          | none ↦ record { workers = insert r.workers id fresh }
        ])
    go none = record {
      distinct = insert-Distinct r.workers id fresh h.distinct;
      keyed = insert-IsKeyed r.workers id fresh refl h.keyed;
    }
    go (some w) = record {
      distinct = modify-Distinct r.workers id _ h.distinct;
      keyed = modify-IsKeyed r.workers id _ (λ w. refl) h.keyed;
    }

mark_all : (now grace : ℕ) → HashMap WorkerId WorkerInfo → HashMap WorkerId WorkerInfo
mark_all now grace m = map (λ (k, w). (k, mark_if_stale now grace w)) m

get-mark_all :
    (now grace : ℕ) (m : HashMap WorkerId WorkerInfo) (j : WorkerId)
    → get m j ≡ none
    → get (mark_all now grace m) j ≡ none
unfolding get mark_all
get-mark_all now grace [] j h = refl
get-mark_all now grace ((k, w) ∷ m) j h = ground (arith, get-mark_all now grace m j)

mark_all-Distinct :
    (now grace : ℕ) (m : HashMap WorkerId WorkerInfo) → Distinct m → Distinct (mark_all now grace m)
unfolding mark_all
mark_all-Distinct now grace [] h = tt
mark_all-Distinct now grace ((k, w) ∷ m) h =
    (get-mark_all now grace m k h.0, mark_all-Distinct now grace m h.1)

mark_all-IsKeyed :
    (now grace : ℕ) (m : HashMap WorkerId WorkerInfo) → IsKeyed m → IsKeyed (mark_all now grace m)
unfolding mark_all
mark_all-IsKeyed now grace [] h = tt
mark_all-IsKeyed now grace ((k, w) ∷ m) h = ground (arith, mark_all-IsKeyed now grace m h.1)

pub mark_stale_workers-IsWellFormed :
    (r : Registry) (now grace : ℕ) → IsWellFormed r → IsWellFormed (mark_stale_workers r now grace)
unfolding mark_stale_workers mark_all
mark_stale_workers-IsWellFormed r now grace h = record {
  distinct = mark_all-Distinct now grace r.workers h.distinct;
  keyed = mark_all-IsKeyed now grace r.workers h.keyed;
}

-- The operations of a registry, as a client may call them.
pub data Call : Type 0 where
  adds : WorkerInfo → Call
  removes : WorkerId → Call
  updates : WorkerId → WorkerStatus → Call
  hears : (now : ℕ) → WorkerId → WorkerMetrics → String → Call
  sweeps : (now grace : ℕ) → Call

abbrev pub perform : Call → Registry → Registry
perform (adds info) r = add_worker r info
perform (removes id) r = remove_worker r id
perform (updates id status) r = update_status r id status
perform (hears now id metrics address) r = record_heartbeat r now id metrics address
perform (sweeps now grace) r = mark_stale_workers r now grace

abbrev pub perform_all : List Call → Registry → Registry
perform_all [] r = r
perform_all (c ∷ cs) r = perform_all cs (perform c r)

perform-IsWellFormed : (c : Call) (r : Registry) → IsWellFormed r → IsWellFormed (perform c r)
perform-IsWellFormed (adds info) r = add_worker-IsWellFormed r info
perform-IsWellFormed (removes id) r = remove_worker-IsWellFormed r id
perform-IsWellFormed (updates id status) r = update_status-IsWellFormed r id status
perform-IsWellFormed (hears now id metrics address) r =
    record_heartbeat-IsWellFormed r now id metrics address
perform-IsWellFormed (sweeps now grace) r = mark_stale_workers-IsWellFormed r now grace

perform_all-keeps :
    (cs : List Call) (r : Registry) → IsWellFormed r → IsWellFormed (perform_all cs r)
perform_all-keeps [] r h = h
perform_all-keeps (c ∷ cs) r h = perform_all-keeps cs (perform c r) (perform-IsWellFormed c r h)

-- After any calls on an empty registry, every worker stands in it once, under its own identifier.
pub perform_all-IsWellFormed : (cs : List Call) → IsWellFormed (perform_all cs empty)
perform_all-IsWellFormed cs = perform_all-keeps cs empty (record { distinct = tt; keyed = tt })

Among-values :
    (m : HashMap WorkerId WorkerInfo) (w : WorkerInfo)
    → Distinct m
    → IsKeyed m
    → Among w (values m)
    → get m w.id ≡ some w
unfolding get
Among-values [] w d k mem = absurd mem
Among-values ((j, v) ∷ m) w d k (inl e) = ground arith
Among-values ((j, v) ∷ m) w d k (inr mem) = ground (arith, Among-values m w d.1 k.1 mem)

get-Among :
    (m : HashMap WorkerId WorkerInfo) (j : WorkerId) (w : WorkerInfo)
    → get m j ≡ some w
    → Among w (values m)
unfolding get
get-Among [] j w h = cc
get-Among ((k, v) ∷ m) j w h = ground (arith, get-Among m j w)

-- In a well-formed registry the available workers are exactly the active workers that it holds.
pub available_workers_iff :
    (r : Registry) (w : WorkerInfo)
    → IsWellFormed r
    → Among w (available_workers r) ↔ ((get_worker r w.id ≡ some w) × (w.status ≡ active))
unfolding available_workers get_worker
available_workers_iff r w h = (
  (λ m.
      let (held, act) = keep-Among (λ v. is_active v.status) w (values r.workers) m in
      (Among-values r.workers w h.distinct h.keyed held, ground arith)),
  (λ (found, act).
      Among-keep (λ v. is_active v.status) w (values r.workers) (get-Among r.workers w.id w found)
        (ground arith)),
)

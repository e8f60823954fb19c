-- ===== src/Registry/Tests.antt =====
-- The registry's theorems at one worker that falls silent.
use distributed_processing_e.Base.{◌≡◌, ◌↔◌, refl, some, [], ◌∷◌, Among, if◌then◌else◌}
use distributed_processing_e.Base.Eq.{nat_eq}
use distributed_processing_e.Base.Map.{get}
use distributed_processing_e.Registry.{
  Registry, available_workers, get_worker, mark_stale_workers, empty,
}
use distributed_processing_e.Registry.Availability.{
  IsWellFormed, Call, perform_all, perform_all-IsWellFormed, available_workers_iff,
}
use distributed_processing_e.Registry.Staleness.{overdue, get_worker-mark_stale_workers}
use distributed_processing_e.Samples.{ann}
use distributed_processing_e.Types.{WorkerStatus}

abbrev registry : Registry
registry = record { workers = (7, ann) ∷ [] }

available_workers_example :
    Among ann (available_workers registry)
    ↔ ((get_worker registry 7 ≡ some ann) × (ann.status ≡ WorkerStatus.active))
unfolding get
available_workers_example =
    available_workers_iff registry ann (record { distinct = (refl, tt); keyed = (refl, tt) })

perform_all_example : IsWellFormed (perform_all (Call.adds ann ∷ Call.sweeps 20 5 ∷ []) empty)
perform_all_example = perform_all-IsWellFormed (Call.adds ann ∷ Call.sweeps 20 5 ∷ [])

-- The last heartbeat was at 0, the grace period is 5, the sweep comes at 20.
mark_stale_example :
    get_worker (mark_stale_workers registry 20 5) 7
    ≡ some (if overdue 20 5 ann then record ann { status = WorkerStatus.down } else ann)
unfolding get_worker get
mark_stale_example = get_worker-mark_stale_workers registry 20 5 7 ann refl

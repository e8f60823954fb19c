-- ===== src/Scheduler/Tests.antt =====
-- The scheduler's theorems at one worker, and at a queue that has gone stale.
use distributed_processing_e.Base.{◌≡◌, ◌≢◌, refl, some, [], ◌∷◌, Among, inl, inr, sym, ap, false}
use distributed_processing_e.Base.Eq.{nat_eq}
use distributed_processing_e.Registry.{Registry, available_workers}
use distributed_processing_e.Samples.{ann, floats}
use distributed_processing_e.Scheduler.{
  RoundRobinScheduler, default_scheduler, select_worker, contains, walk, min_of, compute_load,
}
use distributed_processing_e.Scheduler.Selection.{
  IsLeastLoaded, select_worker-IsLeastLoaded, select_worker_stale,
}
use distributed_processing_e.Types.{WorkerId, WorkerInfo}

abbrev registry : Registry
registry = record { workers = (7, ann) ∷ [] }

some_available : available_workers registry ≢ []
unfolding available_workers
some_available e = cc

least_loaded_example : IsLeastLoaded floats (available_workers registry) 7
unfolding select_worker available_workers walk min_of compute_load
least_loaded_example =
    select_worker-IsLeastLoaded floats default_scheduler registry 7 (inl refl) refl

-- Worker 3 left and worker 7 came since the queue was made.
abbrev stale : RoundRobinScheduler
stale = record { cursor = 0; queue = 3 ∷ [] }

not_held :
    (w : WorkerInfo) → Among w (available_workers registry) → contains stale.queue w.id ≡ false
unfolding available_workers
not_held w (inl e) = ap (λ (w : WorkerInfo). contains stale.queue w.id) (sym e)
not_held w (inr m) = absurd m

stale_example :
    (id : WorkerId) × ((select_worker floats stale registry).0 ≡ some id)
    × ((w : WorkerInfo) → Among w (available_workers registry) → w.id ≢ id)
unfolding available_workers
stale_example = select_worker_stale floats stale registry refl some_available not_held

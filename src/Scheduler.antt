-- ===== src/Scheduler.antt =====
-- The choice of a worker for a task: src/master/scheduler.rs.
pub mod Walking
pub mod Renewal
pub mod Selection
mod Tests
use distributed_processing_e.Base.{
  ℕ, zero, suc, ◌-◌, ◌%◌, ◌≤◌, Bool, true, false, ◌||◌, Option, none, some, List, [], ◌∷◌, ◌++◌,
  map, keep, length, ltb, leb, not, if◌then◌else◌,
}
use distributed_processing_e.Base.Eq.{◌==◌, nat_eq}
use distributed_processing_e.Base.Floats.{Floats}
use distributed_processing_e.Base.Words.{add_u32, mul_u32, add_usize, u32_mod}
use distributed_processing_e.Types.{WorkerId, WorkerInfo}
use distributed_processing_e.Registry.{Registry, available_workers}

pub record RoundRobinScheduler : Type 0 where
  pub cursor : ℕ
  pub queue : List WorkerId

abbrev pub default_scheduler : RoundRobinScheduler
default_scheduler = record { cursor = 0; queue = [] }

-- `contains`
abbrev pub contains : List WorkerId → WorkerId → Bool
contains [] id = false
contains (x ∷ xs) id = x == id || contains xs id

abbrev pub is_empty {ℓ} : {A : Type ℓ} → List A → Bool
is_empty [] = true
is_empty (x ∷ xs) = false

-- `min()` of the loads, and `u32::MAX` of none.
unfoldable pub min_of : List ℕ → ℕ
min_of [] = u32_mod - 1
min_of (x ∷ []) = x
min_of (x ∷ y ∷ xs) = let m = min_of (y ∷ xs) in if leb x m then x else m

-- The rounds of the tie-breaker: the front goes to the back, until an eligible worker has gone.
unfoldable pub walk : ℕ → List WorkerId → List WorkerId → Option WorkerId × List WorkerId
walk zero eligible queue = (none, queue)
walk (suc rounds) eligible [] = walk rounds eligible []
walk (suc rounds) eligible (id ∷ queue) =
    let rest = walk rounds eligible (queue ++ id ∷ []) in
    if contains eligible id then (some id, queue ++ id ∷ []) else rest

-- The fallback: plain round robin.
abbrev pub rotate : List WorkerId → Option WorkerId × List WorkerId
rotate [] = (none, [])
rotate (id ∷ queue) = (some id, queue ++ id ∷ [])

abbrev pub or_rotate : Option WorkerId × List WorkerId → Option WorkerId × List WorkerId
or_rotate (some id, queue) = (some id, queue)
or_rotate (none, queue) = rotate queue

abbrev pub refresh : List WorkerId → List WorkerInfo → List WorkerId
refresh queue workers =
    if is_empty queue || not (length queue == length workers)
    then map (λ w. w.id) workers
    else queue

module _ (fl : Floats) where
  unfoldable pub compute_load : WorkerInfo → ℕ
  compute_load w =
      let tasks = w.metrics.tasks_in_flight % u32_mod in
      let cpu = fl.to_u32 w.metrics.cpu_pct in add_u32 (mul_u32 tasks 2) cpu

  abbrev pub least_loaded : List WorkerInfo → List WorkerId
  least_loaded workers =
      let min_load = min_of (map compute_load workers) in
      map (λ w. w.id) (keep (λ w. compute_load w == min_load) workers)

  abbrev pub choose : RoundRobinScheduler → List WorkerInfo → Option WorkerId × RoundRobinScheduler
  choose s workers =
      let queue = refresh s.queue workers in
      let picked = or_rotate (walk (length queue) (least_loaded workers) queue) in
      (picked.0, record { cursor = add_usize s.cursor 1 % length workers; queue = picked.1 })

  -- The worker for the next task, if any is available, and the scheduler after the choice.
  unfoldable pub select_worker :
      RoundRobinScheduler → Registry → Option WorkerId × RoundRobinScheduler
  select_worker s r =
      let workers = available_workers r in if is_empty workers then (none, s) else choose s workers

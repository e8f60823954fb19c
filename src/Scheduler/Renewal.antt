-- ===== src/Scheduler/Renewal.antt =====
-- The queue of src/master/scheduler.rs when it is renewed, and the least number of a list.
use distributed_processing_e.Base.{
  ℕ, ◌≤◌, ◌<◌, ◌≡◌, ◌≢◌, refl, ap, true, List, [], ◌∷◌, map, arith, length, Among, Bool-cases, inl,
  inr, ◌⊎◌,
}
use distributed_processing_e.Base.Eq.{◌==◌, nat_eq}
use distributed_processing_e.Registry.{Registry, available_workers}
use distributed_processing_e.Scheduler.{RoundRobinScheduler, contains, min_of, refresh}
use distributed_processing_e.Scheduler.Walking.{count, SameItems}
use distributed_processing_e.Types.{WorkerId, WorkerInfo}

abbrev pub ids : List WorkerInfo → List WorkerId
ids = map (λ w. w.id)

-- The queue is renewed by the next choice, or holds the identifiers of the available workers.
abbrev pub InStep : RoundRobinScheduler → Registry → Type 0
InStep s r =
    (s.queue ≡ [])
    ⊎ (length s.queue ≢ length (available_workers r))
    ⊎ SameItems s.queue (ids (available_workers r))

pub length-refresh :
    (queue : List WorkerId) (workers : List WorkerInfo)
    → workers ≢ []
    → 0 < length (refresh queue workers)
length-refresh [] [] h = absurd (h refl)
length-refresh [] (w ∷ workers) h = omega arith
length-refresh (x ∷ queue) [] h = absurd (h refl)
length-refresh (x ∷ queue) (w ∷ workers) h = ground arith

pub refresh_same :
    (queue : List WorkerId) (workers : List WorkerInfo)
    → length queue ≡ length workers
    → workers ≢ []
    → refresh queue workers ≡ queue
refresh_same [] [] same h = absurd (h refl)
refresh_same [] (w ∷ workers) same h = absurd (omega arith)
refresh_same (x ∷ queue) workers same h = ground arith

pub length-nonempty : (workers : List WorkerInfo) → workers ≢ [] → 0 < length workers
length-nonempty [] h = absurd (h refl)
length-nonempty (w ∷ workers) h = omega arith

pub refresh-SameItems :
    (s : RoundRobinScheduler) (r : Registry)
    → InStep s r
    → SameItems (refresh s.queue (available_workers r)) (ids (available_workers r))
refresh-SameItems s r h a = go s.queue (available_workers r) h
  where
    go :
        (queue : List WorkerId) (workers : List WorkerInfo)
        → (queue ≡ []) ⊎ (length queue ≢ length workers) ⊎ SameItems queue (ids workers)
        → count a (refresh queue workers) ≡ count a (ids workers)
    go [] workers h = refl
    go (x ∷ queue) workers (inl e) = cc
    go (x ∷ queue) workers (inr (inl ne)) = ground arith
    go (x ∷ queue) workers (inr (inr same)) = ground (arith, same a)

pub min_of-le : (x : ℕ) (xs : List ℕ) → Among x xs → min_of xs ≤ x
unfolding min_of
min_of-le x [] m = absurd m
min_of-le x (y ∷ []) m = ground arith
min_of-le x (y ∷ z ∷ xs) (inl e) = ground arith
min_of-le x (y ∷ z ∷ xs) (inr m) = ground (arith, min_of-le x (z ∷ xs) m)

pub Among-map :
    (f : WorkerInfo → ℕ) (w : WorkerInfo) (ws : List WorkerInfo)
    → Among w ws
    → Among (f w) (map f ws)
Among-map f w [] m = absurd m
Among-map f w (v ∷ ws) (inl e) = inl (ap f e)
Among-map f w (v ∷ ws) (inr m) = inr (Among-map f w ws m)

pub contains-Among :
    (f : WorkerInfo → ℕ) (w : WorkerInfo) (ws : List WorkerInfo)
    → Among w ws
    → contains (map f ws) (f w) ≡ true
contains-Among f w [] m = absurd m
contains-Among f w (v ∷ ws) (inl e) = ground (arith, ap f e, nat_eq.same_iff (f v) (f w))
contains-Among f w (v ∷ ws) (inr m) = ground (arith, contains-Among f w ws m)

-- A member that is met has a worker behind it.
pub contains-member :
    (f : WorkerInfo → ℕ) (a : ℕ) (ws : List WorkerInfo)
    → contains (map f ws) a ≡ true
    → (w : WorkerInfo) × Among w ws × (f w ≡ a)
contains-member f a [] h = cc
contains-member f a (v ∷ ws) h = elim (Bool-cases (f v == a)) [
  | inl same ↦ (v, inl refl, (nat_eq.same_iff (f v) a).0 same)
  | inr other ↦ let (w, m, e) = contains-member f a ws (ground arith) in (w, inr m, e)
]

-- The least number of a list is one of its numbers.
pub min_of-attained : (x : ℕ) (xs : List ℕ) → contains (x ∷ xs) (min_of (x ∷ xs)) ≡ true
unfolding min_of
min_of-attained x [] = ground (arith, nat_eq.same_iff x x)
min_of-attained x (y ∷ xs) = ground (arith, nat_eq.same_iff x x, min_of-attained y xs)

pub min_member :
    (f : WorkerInfo → ℕ) (ws : List WorkerInfo)
    → ws ≢ []
    → (w : WorkerInfo) × Among w ws × (f w ≡ min_of (map f ws))
min_member f [] h = absurd (h refl)
min_member f (v ∷ ws) h =
    contains-member f (min_of (map f (v ∷ ws))) (v ∷ ws) (min_of-attained (f v) (map f ws))

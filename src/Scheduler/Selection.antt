-- ===== src/Scheduler/Selection.antt =====
-- Which worker `select_worker` picks.
use distributed_processing_e.Base.{
  true_not_false, ◌≤◌, ◌≡◌, ◌≢◌, ◌↔◌, refl, sym, ap, ◌∙◌, Bool, true, false, Option, none, some,
  List, [], ◌∷◌, map, keep, arith, length, any, Among, Among-keep, keep-Among, inl, inr, ◌⊎◌,
}
use distributed_processing_e.Base.Eq.{◌==◌, nat_eq}
use distributed_processing_e.Base.Floats.{Floats}
use distributed_processing_e.Registry.{Registry, available_workers}
use distributed_processing_e.Scheduler.{
  RoundRobinScheduler, contains, is_empty, min_of, walk, or_rotate, refresh, compute_load,
  least_loaded, select_worker,
}
use distributed_processing_e.Scheduler.Walking.{
  count, SameItems, count-walk, count-or_rotate, length-walk, walk-eligible, walk_finds,
  or_rotate-some, contains-count, count-contains, any-contains, picked_held,
}
use distributed_processing_e.Types.{WorkerId, WorkerInfo}
use distributed_processing_e.Scheduler.Renewal.{
  ids, InStep, length-refresh, refresh_same, length-nonempty, refresh-SameItems, min_of-le,
  Among-map, contains-Among, contains-member, min_member,
}

not_none : (id : WorkerId) → ◌≢◌ {A = Option WorkerId} none (some id)
not_none id e = cc

pub nil_cases : (ws : List WorkerInfo) → (ws ≡ []) ⊎ (ws ≢ [])
nil_cases [] = inl refl
nil_cases (w ∷ ws) = inr (λ e. cc)

-- Where the walk finds a worker the fallback is not taken.
chosen :
    (p : Option WorkerId × List WorkerId) {met id : WorkerId}
    → p.0 ≡ some met
    → (or_rotate p).0 ≡ some id
    → p.0 ≡ some id
chosen (some x, queue) f e = e
chosen (none, queue) f e = cc

module _ (fl : Floats) where
  -- Of the available workers, one whose load is least.
  pub record IsLeastLoaded (workers : List WorkerInfo) (id : WorkerId) : Type 0 where
    pub worker : WorkerInfo
    pub available : Among worker workers
    pub named : worker.id ≡ id
    pub least : (v : WorkerInfo) → Among v workers → compute_load fl worker ≤ compute_load fl v

  least_loaded-IsLeastLoaded :
      (workers : List WorkerInfo) (id : WorkerId)
      → contains (least_loaded fl workers) id ≡ true
      → IsLeastLoaded workers id
  least_loaded-IsLeastLoaded workers id h =
      let (w, kept, named) = contains-member (λ w. w.id) id (keep is_least workers) h in
      let (here, low) = keep-Among is_least w workers kept in
      record {
        worker = w;
        available = here;
        named = named;
        least = λ v m. omega (
          arith,
          (nat_eq.same_iff (compute_load fl w) (min_of (map (compute_load fl) workers))).0 low,
          min_of-le (compute_load fl v) (map (compute_load fl) workers)
              (Among-map (compute_load fl) v workers m),
        );
      }
    where
      is_least : WorkerInfo → Bool
      is_least w = compute_load fl w == min_of (map (compute_load fl) workers)

  -- A queue with the workers' identifiers holds one of least load.
  queue_meets :
      (workers : List WorkerInfo) (queue : List WorkerId)
      → workers ≢ []
      → SameItems queue (ids workers)
      → any (contains (least_loaded fl workers)) queue ≡ true
  queue_meets workers queue h same =
      let (w, here, low) = min_member (compute_load fl) workers h in
      any-contains w.id (least_loaded fl workers) queue
        (contains-Among (λ v. v.id) w _
          (Among-keep (λ v. compute_load fl v == min_of (map (compute_load fl) workers)) w workers
            here ((nat_eq.same_iff _ _).1 low)))
        (count-contains w.id queue (
          omega (
            arith,
            same w.id,
            contains-count w.id (ids workers) (contains-Among (λ v. v.id) w workers here),
          )))

  select_worker_empty :
      (s : RoundRobinScheduler) (r : Registry)
      → available_workers r ≡ []
      → select_worker fl s r ≡ (none, s)
  unfolding select_worker
  select_worker_empty s r h = rw (h, select_worker)

  nonempty : (workers : List WorkerInfo) → workers ≢ [] → is_empty workers ≡ false
  nonempty [] h = absurd (h refl)
  nonempty (w ∷ workers) h = refl

  abbrev picked : List WorkerInfo → List WorkerId → Option WorkerId × List WorkerId
  picked workers queue = or_rotate (walk (length queue) (least_loaded fl workers) queue)

  select_worker_some :
      (s : RoundRobinScheduler) (r : Registry)
      → available_workers r ≢ []
      → (let p = picked (available_workers r) (refresh s.queue (available_workers r)) in
          ((select_worker fl s r).0 ≡ p.0) × ((select_worker fl s r).1.queue ≡ p.1))
  unfolding select_worker
  select_worker_some s r h = rw (nonempty (available_workers r) h, select_worker) (refl, refl)

  -- A worker is chosen exactly where one is available.
  pub select_worker-none_iff :
      (s : RoundRobinScheduler) (r : Registry)
      → ((select_worker fl s r).0 ≡ none) ↔ (available_workers r ≡ [])
  select_worker-none_iff s r = (
    (λ e. elim (nil_cases (available_workers r)) [
      | inl h ↦ h
      | inr h ↦
          let queue = refresh s.queue (available_workers r) in
          let (id, found) =
            or_rotate-some (walk (length queue) (least_loaded fl (available_workers r)) queue) (
              omega (
                arith,
                length-walk (length queue) (least_loaded fl (available_workers r)) queue,
                length-refresh s.queue (available_workers r) h,
              )) in
          absurd (not_none id (sym e ∙ (select_worker_some s r h).0 ∙ found))
    ]),
    (λ h. ap (λ (p : Option WorkerId × RoundRobinScheduler). p.0) (select_worker_empty s r h)),
  )

  -- With a queue that is in step with the registry, the chosen worker is available, and no available
  -- worker has a lower load.
  pub select_worker-IsLeastLoaded :
      (s : RoundRobinScheduler) (r : Registry) (id : WorkerId)
      → InStep s r
      → (select_worker fl s r).0 ≡ some id
      → IsLeastLoaded (available_workers r) id
  select_worker-IsLeastLoaded s r id step e = elim (nil_cases (available_workers r)) [
    | inl none_left ↦ absurd (
        not_none id (
          sym (
            ap (λ (p : Option WorkerId × RoundRobinScheduler). p.0)
              (select_worker_empty s r none_left))
          ∙ e))
    | inr h ↦
        let queue = refresh s.queue (available_workers r) in
        let (met, found) =
          walk_finds (least_loaded fl (available_workers r)) queue
            (queue_meets (available_workers r) queue h (refresh-SameItems s r step)) in
        least_loaded-IsLeastLoaded (available_workers r) id (
          walk-eligible (length queue) (least_loaded fl (available_workers r)) queue id (
            chosen (walk (length queue) (least_loaded fl (available_workers r)) queue) found
              (sym (select_worker_some s r h).0 ∙ e)))
  ]

  -- A choice leaves the queue with exactly the available workers, so that the next one is in step.
  select_worker-SameItems :
      (s : RoundRobinScheduler) (r : Registry)
      → InStep s r
      → available_workers r ≢ []
      → SameItems (select_worker fl s r).1.queue (ids (available_workers r))
  select_worker-SameItems s r step h a =
      let queue = refresh s.queue (available_workers r) in
      ap (count a) (select_worker_some s r h).1
      ∙ count-or_rotate a (walk (length queue) (least_loaded fl (available_workers r)) queue)
      ∙ count-walk a (length queue) (least_loaded fl (available_workers r)) queue
      ∙ refresh-SameItems s r step a

  -- The fault of a queue that is compared by length only: as many workers as the queue has, none of
  -- them in it, and the choice falls on one that is not available.
  pub select_worker_stale :
      (s : RoundRobinScheduler) (r : Registry)
      → length s.queue ≡ length (available_workers r)
      → available_workers r ≢ []
      → ((w : WorkerInfo) → Among w (available_workers r) → contains s.queue w.id ≡ false)
      → (id : WorkerId) × ((select_worker fl s r).0 ≡ some id)
        × ((w : WorkerInfo) → Among w (available_workers r) → w.id ≢ id)
  select_worker_stale s r same h gone =
      let kept = refresh_same s.queue (available_workers r) same h in
      let eligible = least_loaded fl (available_workers r) in
      let (id, found) = or_rotate-some (walk (length s.queue) eligible s.queue) (
        omega (
          arith,
          length-walk (length s.queue) eligible s.queue,
          same,
          length-nonempty (available_workers r) h,
        )) in
      (
        id,
        rw kept at (select_worker_some s r h).0 ∙ found,
        λ w m e. true_not_false (
            sym (picked_held (length s.queue) eligible s.queue id found)
            ∙ ap (contains s.queue) (sym e)
            ∙ gone w m),
      )

-- ===== src/Dag/Sorting.antt =====
-- The order that the queue loop of `ordered_nodes` of src/common/dag.rs gives the nodes.
use mathlib.Core.List.{append_assoc, append-nil}
use mathlib.Core.Path.{subst}
use distributed_processing_e.Base.{
  ℕ, zero, suc, ◌≡◌, sym, ap, ◌∙◌, String, List, [], ◌∷◌, ◌++◌, length, arith, Option-cases, inl,
  inr, true,
}
use distributed_processing_e.Base.Eq.{string_eq}
use distributed_processing_e.Base.Map.{HashMap, get}
use distributed_processing_e.Dag.{children_of, link_edges, lower_all, topo_loop, ready_ids}
use distributed_processing_e.Dag.Counters.{
  Counters, holds, open_edges, child_ids, children_of-link_edges,
}
use distributed_processing_e.Dag.Queue.{
  IsQueue, AllDifferent, AllDifferent-snoc, lower_all-IsQueue, popped-IsQueue,
}
use distributed_processing_e.Dag.Termination.{IsOrder, start, start-IsQueue}
use distributed_processing_e.Spec.{DagSpecification, DagEdge}

module _ (edges : List DagEdge) where
  -- Every edge into a node of the list comes from a node before it, or from one of `before`.
  abbrev pub ParentsFirst : List String → List String → Type 0
  ParentsFirst before [] = Unit
  ParentsFirst before (id ∷ ids) =
      (open_edges before edges id ≡ 0) × ParentsFirst (before ++ id ∷ []) ids

  ParentsFirst-snoc :
      (before ids : List String) (id : String)
      → ParentsFirst before ids
      → open_edges (before ++ ids) edges id ≡ 0
      → ParentsFirst before (ids ++ id ∷ [])
  ParentsFirst-snoc before [] id p e =
      (ap (λ b. open_edges b edges id) (sym (append-nil before)) ∙ e, tt)
  ParentsFirst-snoc before (x ∷ ids) id p e = (
    p.0,
    ParentsFirst-snoc (before ++ x ∷ []) ids id p.1
        (ap (λ b. open_edges b edges id) (append_assoc before (x ∷ []) ids) ∙ e),
  )

  all_lowered :
      (id : String) (ordered : List String) (m : Counters) (queue : List String)
      → IsQueue edges ordered [] m (id ∷ queue)
      → open_edges ordered edges id ≡ 0
  all_lowered id ordered m queue h = elim (Option-cases (get m id)) [
    | inl absent ↦ absurd (h.present id held absent)
    | inr (k, found) ↦ omega (arith, h.enough id k found, h.queued_zero id k held found)
  ]
    where
      held : holds id (id ∷ queue) ≡ true
      held = ground (arith, string_eq.same_iff id id)

  topo_loop-ParentsFirst :
      (outgoing : HashMap String (List String))
      → ((id : String) → children_of outgoing id ≡ child_ids id edges)
      → (fuel : ℕ) (m : Counters) (queue ordered : List String) → IsQueue edges ordered [] m queue
      → AllDifferent ordered
      → ParentsFirst [] ordered
      → (let ids = (topo_loop outgoing fuel (m, queue) ordered).0 in
          AllDifferent ids × ParentsFirst [] ids)
  unfolding topo_loop
  topo_loop-ParentsFirst outgoing links zero m queue ordered h d p = (d, p)
  topo_loop-ParentsFirst outgoing links (suc fuel) m [] ordered h d p = (d, p)
  topo_loop-ParentsFirst outgoing links (suc fuel) m (id ∷ queue) ordered h d p =
      let (h', same) =
        lower_all-IsQueue edges (ordered ++ id ∷ []) (child_ids id edges) m queue
          (popped-IsQueue edges id ordered m queue h) in
      let s = lower_all (child_ids id edges) (m, queue) in
      subst
        (λ ids.
          let r = (topo_loop outgoing fuel (lower_all ids (m, queue)) (ordered ++ id ∷ [])).0 in
          AllDifferent r × ParentsFirst [] r)
        (sym (links id))
        (topo_loop-ParentsFirst outgoing links fuel s.0 s.1 (ordered ++ id ∷ []) h'
          (AllDifferent-snoc ordered id d (h.apart id (ground (arith, string_eq.same_iff id id))))
          (ParentsFirst-snoc [] ordered id p (all_lowered id ordered m queue h)))

-- The loop of `ordered_nodes` sorts the nodes that it reaches: it orders no id twice, and each one
-- after the sources of all its edges, on every graph.
pub topo_loop-sorted :
    (iter : Counters → Counters) (d : DagSpecification)
    → IsOrder iter
    → (let ids =
          (topo_loop
            (link_edges d.edges [])
            (length (start d))
            (start d, ready_ids iter (start d))
            []).0 in
        AllDifferent ids × ParentsFirst d.edges [] ids)
unfolding get
topo_loop-sorted iter d order =
    topo_loop-ParentsFirst d.edges (link_edges d.edges [])
      (λ id. children_of-link_edges d.edges [] id) (length (start d)) (start d)
      (ready_ids iter (start d)) [] (start-IsQueue iter d order) tt tt

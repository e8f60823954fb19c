-- ===== src/Dag/Membership.antt =====
-- `ordered_nodes` of src/common/dag.rs against the list of the nodes.
use mathlib.Core.Path.{subst}
use mathlib.Core.Option.{some-injective}
use distributed_processing_e.Base.{
  ℕ, ◌≡◌, ◌≢◌, ◌↔◌, refl, sym, ap, ◌∙◌, String, Bool, true, false, some, List, [], ◌∷◌, ◌++◌, map,
  filter_map, Among, arith, if◌then◌else◌, Bool-cases, Option-cases, inl, inr,
}
use distributed_processing_e.Base.Eq.{◌==◌, string_eq}
use distributed_processing_e.Base.Map.{HashMap}
use distributed_processing_e.Dag.{append_rest, is_nil, node_by_id, ordered_ids, ordered_nodes}
use distributed_processing_e.Dag.Counters.{holds, holds-snoc}
use distributed_processing_e.Dag.Queue.{AllDifferent, AllDifferent-snoc}
use distributed_processing_e.Dag.Sorting.{topo_loop-sorted}
use distributed_processing_e.Dag.Termination.{IsOrder}
use distributed_processing_e.Spec.{DagSpecification, DagNode}

abbrev ids_of : List DagNode → List String
ids_of nodes = map (λ n. n.id) nodes

holds-append_rest :
    (nodes : List DagNode) (y : String) (ordered : List String)
    → holds y ordered ≡ true
    → holds y (append_rest nodes ordered) ≡ true
unfolding append_rest
holds-append_rest [] y ordered h = h
holds-append_rest (n ∷ nodes) y ordered h = elim (Bool-cases (holds n.id ordered)) [
  | inl there ↦ rw there (holds-append_rest nodes y ordered h)
  | inr missing ↦
      rw missing (
        holds-append_rest nodes y (ordered ++ n.id ∷ [])
          (ground (arith, holds-snoc y ordered n.id)))
]

append_rest_complete :
    (nodes : List DagNode) (n : DagNode) (ordered : List String)
    → Among n nodes
    → holds n.id (append_rest nodes ordered) ≡ true
unfolding append_rest
append_rest_complete [] n ordered m = absurd m
append_rest_complete (k ∷ nodes) n ordered (inr m) =
    append_rest_complete nodes n (if holds k.id ordered then ordered else ordered ++ k.id ∷ []) m
append_rest_complete (k ∷ nodes) n ordered (inl e) =
    holds-append_rest nodes n.id (if holds k.id ordered then ordered else ordered ++ k.id ∷ []) (
      subst (λ x. holds x (if holds k.id ordered then ordered else ordered ++ k.id ∷ []) ≡ true)
        (ap (λ n. n.id) e)
        (elim (Bool-cases (holds k.id ordered)) [
          | inl there ↦ rw there there
          | inr missing ↦
              rw missing
                (ground (arith, holds-snoc k.id ordered k.id, string_eq.same_iff k.id k.id))
        ]))

find-Among :
    (nodes : List DagNode) (id : String) (n : DagNode)
    → node_by_id nodes id ≡ some n
    → Among n nodes
find-Among [] id n e = cc
find-Among (k ∷ nodes) id n e = elim (Bool-cases (k.id == id)) [
  | inl same ↦ inl (some-injective k n (rw same at e))
  | inr other ↦ inr (find-Among nodes id n (rw other at e))
]

Among-holds :
    (nodes : List DagNode) (n : DagNode) → Among n nodes → holds n.id (ids_of nodes) ≡ true
Among-holds [] n m = absurd m
Among-holds (k ∷ nodes) n (inl e) =
    let same = (string_eq.same_iff k.id n.id).1 (ap (λ n. n.id) e) in rw same refl
Among-holds (k ∷ nodes) n (inr m) = ground (arith, Among-holds nodes n m)

find_unique :
    (nodes : List DagNode) (n : DagNode)
    → AllDifferent (ids_of nodes)
    → Among n nodes
    → node_by_id nodes n.id ≡ some n
find_unique [] n d m = absurd m
find_unique (k ∷ nodes) n d (inl e) =
    let same = (string_eq.same_iff k.id n.id).1 (ap (λ n. n.id) e) in rw same (ap some e)
find_unique (k ∷ nodes) n d (inr m) = elim (Bool-cases (k.id == n.id)) [
  | inl same ↦ absurd (
      different (
        sym d.0
        ∙ ap (λ x. holds x (ids_of nodes)) ((string_eq.same_iff k.id n.id).0 same)
        ∙ Among-holds nodes n m))
  | inr other ↦ rw other (find_unique nodes n d.1 m)
]
  where
    different : ◌≢◌ {A = Bool} false true
    different e = cc

filter_map-find :
    (nodes : List DagNode) (ids : List String) (n : DagNode)
    → Among n (filter_map (node_by_id nodes) ids)
    → Among n nodes
filter_map-find nodes [] n m = absurd m
filter_map-find nodes (id ∷ ids) n m = elim (Option-cases (node_by_id nodes id)) [
  | inl absent ↦ filter_map-find nodes ids n (rw (absent, Among, filter_map) at m)
  | inr (k, found) ↦ elim (rw (found, Among, filter_map) at m) [
    | inl e ↦ find-Among nodes id n (found ∙ ap some e)
    | inr m ↦ filter_map-find nodes ids n m
  ]
]

filter_map-holds :
    (nodes : List DagNode) (ids : List String) (n : DagNode)
    → node_by_id nodes n.id ≡ some n
    → holds n.id ids ≡ true
    → Among n (filter_map (node_by_id nodes) ids)
filter_map-holds nodes [] n found h = cc
filter_map-holds nodes (id ∷ ids) n found h = elim (Bool-cases (id == n.id)) [
  | inl same ↦
      let here = ap (node_by_id nodes) ((string_eq.same_iff id n.id).0 same) ∙ found in
      rw (here, Among, filter_map) (inl refl)
  | inr other ↦
      let later = filter_map-holds nodes ids n found (ground (arith)) in
      elim (Option-cases (node_by_id nodes id)) [
        | inl absent ↦ rw (absent, Among, filter_map) later
        | inr (k, other) ↦ rw (other, Among, filter_map) (inr later)
      ]
]

ordered_nodes-Among :
    (iter : HashMap String ℕ → HashMap String ℕ) (d : DagSpecification)
    → AllDifferent (map (λ n. n.id) d.nodes)
    → (n : DagNode) → Among n (ordered_nodes iter d) ↔ Among n d.nodes
unfolding ordered_nodes ordered_ids
ordered_nodes-Among iter d different n = elim (Bool-cases (is_nil d.edges)) [
  | inl no_edges ↦ rw no_edges ((λ m. m), (λ m. m))
  | inr edges ↦ rw edges (
    filter_map-find d.nodes (ordered_ids iter d) n,
    λ m.
        filter_map-holds d.nodes (ordered_ids iter d) n (find_unique d.nodes n different m)
          (append_rest_complete d.nodes n _ m),
  )
]

append_rest-AllDifferent :
    (nodes : List DagNode) (ordered : List String)
    → AllDifferent ordered
    → AllDifferent (append_rest nodes ordered)
unfolding append_rest
append_rest-AllDifferent [] ordered d = d
append_rest-AllDifferent (n ∷ nodes) ordered d = elim (Bool-cases (holds n.id ordered)) [
  | inl there ↦ rw there (append_rest-AllDifferent nodes ordered d)
  | inr missing ↦ rw missing (
      append_rest-AllDifferent nodes (ordered ++ n.id ∷ [])
        (AllDifferent-snoc ordered n.id d missing))
]

find_same_id :
    (nodes : List DagNode) (id : String) (n : DagNode) → node_by_id nodes id ≡ some n → n.id ≡ id
find_same_id [] id n e = cc
find_same_id (k ∷ nodes) id n e = elim (Bool-cases (k.id == id)) [
  | inl same ↦
      sym (ap (λ n. n.id) (some-injective k n (rw same at e))) ∙ (string_eq.same_iff k.id id).0 same
  | inr other ↦ find_same_id nodes id n (rw other at e)
]

-- An id that is not asked for is not found.
filter_map_free :
    (nodes : List DagNode) (ids : List String) (x : String)
    → holds x ids ≡ false
    → holds x (ids_of (filter_map (node_by_id nodes) ids)) ≡ false
filter_map_free nodes [] x h = refl
filter_map_free nodes (id ∷ ids) x h =
    let later = filter_map_free nodes ids x (ground arith) in
    elim (Option-cases (node_by_id nodes id)) [
      | inl absent ↦ rw (absent, filter_map) later
      | inr (k, found) ↦
          rw (found, filter_map) (ground (arith, later, find_same_id nodes id k found))
    ]

filter_map-AllDifferent :
    (nodes : List DagNode) (ids : List String)
    → AllDifferent ids
    → AllDifferent (ids_of (filter_map (node_by_id nodes) ids))
filter_map-AllDifferent nodes [] d = tt
filter_map-AllDifferent nodes (id ∷ ids) d = elim (Option-cases (node_by_id nodes id)) [
  | inl absent ↦ rw (absent, filter_map) (filter_map-AllDifferent nodes ids d.1)
  | inr (k, found) ↦
      rw (found, filter_map)
        (
          ap (λ x. holds x (ids_of (filter_map (node_by_id nodes) ids)))
                (find_same_id nodes id k found)
              ∙ filter_map_free nodes ids id d.0,
          filter_map-AllDifferent nodes ids d.1,
        )
]

-- Where no two nodes have the same id, `ordered_nodes` rearranges the nodes of the dag, whatever the
-- edges are and in whatever order the map of counters is iterated: each node stands in the result
-- once, and nothing else does, also on a cyclic graph and where an edge names a node that is not
-- there.
pub ordered_nodes_rearrange :
    (iter : HashMap String ℕ → HashMap String ℕ) (d : DagSpecification)
    → IsOrder iter
    → AllDifferent (map (λ n. n.id) d.nodes)
    → AllDifferent (map (λ n. n.id) (ordered_nodes iter d))
      × ((n : DagNode) → Among n (ordered_nodes iter d) ↔ Among n d.nodes)
unfolding ordered_nodes ordered_ids
ordered_nodes_rearrange iter d order different = (
  elim (Bool-cases (is_nil d.edges)) [
    | inl no_edges ↦ rw no_edges different
    | inr edges ↦ rw edges (
        filter_map-AllDifferent d.nodes (ordered_ids iter d)
          (append_rest-AllDifferent d.nodes _ (topo_loop-sorted iter d order).0))
  ],
  ordered_nodes-Among iter d different,
)

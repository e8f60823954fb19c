-- ===== src/Dag/Tasks.antt =====
-- `materialize_tasks`: one task for each partition, with identifiers of their own.
use Prim.Native.String.{◌++◌ as append}
use text.Mathlib.TextLemmas.{append_cancel_left}
use mathlib.Core.Option.{some-injective}
use distributed_processing_e.Base.{
  last?, ◌⊎◌, inl, inr, Bool-cases, false_not_true, ℕ, zero, suc, ◌+◌, ◌-◌, ◌<◌, ◌≡◌, ◌≢◌, refl,
  sym, ap, ◌∙◌, String, Option, none, some, List, [], ◌∷◌, map, arith, All, length, length-map,
  get_elem?,
}
use distributed_processing_e.Base.Decimal.{show_nat, show_nat_inj}
use distributed_processing_e.Base.Eq.{◌==◌, string_eq}
use distributed_processing_e.Base.Map.{HashMap}
use distributed_processing_e.Base.Range.{range, length-range, get_elem?-range}
use distributed_processing_e.Dag.{
  materialize_tasks, tasks_of, task_for, planned_nodes, read_source, stable_id, edges_into,
  or_identity,
}
use distributed_processing_e.Spec.{DagSpecification, DagNode, DagEdge, OperatorType}
use distributed_processing_e.Types.{JobId, Task}

get_elem?-map :
    {A B : Type 0} (f : A → B) (xs : List A) (i : ℕ) {x : A}
    → get_elem? xs i ≡ some x
    → get_elem? (map f xs) i ≡ some (f x)
get_elem?-map f [] i h = cc
get_elem?-map f (y ∷ xs) zero h = ground arith
get_elem?-map f (y ∷ xs) (suc i) h = get_elem?-map f xs i h

-- The texts of the edges that end at a node, in the order of the edges: an edge that ends there gives
-- its two ends with an arrow between them, and any other edge gives nothing.
abbrev pub IsIncoming : String → List DagEdge → List String → Type 0
IsIncoming id [] [] = Unit
IsIncoming id [] (text ∷ texts) = ⊥
IsIncoming id (e ∷ edges) [] = (e.to ≢ id) × IsIncoming id edges []
IsIncoming id (e ∷ edges) (text ∷ texts) =
    ((e.to ≡ id) × (text ≡ append e.from (append "->" e.to)) × IsIncoming id edges texts)
    ⊎ ((e.to ≢ id) × IsIncoming id edges (text ∷ texts))

-- Each node has the texts of the edges that end at it.
abbrev pub AllIncoming : List DagEdge → List String → List (List String) → Type 0
AllIncoming edges [] [] = Unit
AllIncoming edges [] (texts ∷ rest) = ⊥
AllIncoming edges (id ∷ ids) [] = ⊥
AllIncoming edges (id ∷ ids) (texts ∷ rest) = IsIncoming id edges texts × AllIncoming edges ids rest

skip-IsIncoming :
    (id : String) (e : DagEdge) (edges : List DagEdge) (texts : List String)
    → e.to ≢ id
    → IsIncoming id edges texts
    → IsIncoming id (e ∷ edges) texts
skip-IsIncoming id e edges [] other h = (other, h)
skip-IsIncoming id e edges (text ∷ texts) other h = inr (other, h)

edges_into-IsIncoming :
    (edges : List DagEdge) (id : String) → IsIncoming id edges (edges_into edges id)
unfolding edges_into
edges_into-IsIncoming [] id = tt
edges_into-IsIncoming (e ∷ edges) id = elim (Bool-cases (e.to == id)) [
  | inl ends ↦
      rw ends (inl ((string_eq.same_iff e.to id).0 ends, refl, edges_into-IsIncoming edges id))
  | inr other ↦ rw other (
      skip-IsIncoming id e edges (edges_into edges id)
        (λ same. false_not_true (sym other ∙ (string_eq.same_iff e.to id).1 same))
        (edges_into-IsIncoming edges id))
]

edges_into-AllIncoming :
    (edges : List DagEdge) (ids : List String) → AllIncoming edges ids (map (edges_into edges) ids)
edges_into-AllIncoming edges [] = tt
edges_into-AllIncoming edges (id ∷ ids) =
    (edges_into-IsIncoming edges id, edges_into-AllIncoming edges ids)

module _ (iter : HashMap String ℕ → HashMap String ℕ) (new_v5 : ℕ → String → ℕ)
    (d : DagSpecification) (job_id : JobId) where
  -- The job reads something, and a node is left to run.
  pub record IsRunnable : Type 0 where
    pub source : String × String
    pub reads : read_source d ≡ some source
    pub first : DagNode
    pub rest : List DagNode
    pub nodes : planned_nodes iter d ≡ first ∷ rest

  abbrev tasks : List Task
  tasks = materialize_tasks iter new_v5 d job_id

  runnable_tasks :
      (r : IsRunnable)
      → tasks
        ≡ map (task_for iter new_v5 d job_id r.source (r.first ∷ r.rest)) (range 0 d.partitions)
  unfolding materialize_tasks
  runnable_tasks r = rw (r.reads, r.nodes)

  length-tasks : (r : IsRunnable) → length tasks ≡ d.partitions
  length-tasks r =
      ap length (runnable_tasks r)
      ∙ length-map (task_for iter new_v5 d job_id r.source (r.first ∷ r.rest))
          (range 0 d.partitions)
      ∙ length-range 0 d.partitions

  task_at :
      (r : IsRunnable) (i : ℕ)
      → i < d.partitions
      → get_elem? tasks i ≡ some (task_for iter new_v5 d job_id r.source (r.first ∷ r.rest) i)
  task_at r i h =
      ap (λ ts. get_elem? ts i) (runnable_tasks r)
      ∙ get_elem?-map _ (range 0 d.partitions) i
          (get_elem?-range 0 d.partitions i h ∙ ap (λ (n : ℕ). some n) (omega arith))

  -- The i-th task, of a job whose source is given.
  pub record IsTaskOf (i : ℕ) (source : String × String) (t : Task) : Type 0 where
    pub partition : t.partition ≡ i
    pub total : t.total_partitions ≡ d.partitions
    pub job : t.job_id ≡ job_id
    pub input : (t.input_uri, t.input_format) ≡ source
    pub operators : t.operators ≡ map (λ n. n.operator) (planned_nodes iter d)
    pub ids : t.operator_ids ≡ map (λ n. n.id) (planned_nodes iter d)
    pub edges : AllIncoming d.edges t.operator_ids t.incoming_edges
    pub stage : t.stage_id + 1 ≡ length t.operators
    pub last : last? t.operators ≡ some t.operator

  last-or_identity :
      (op : OperatorType) (ops : List OperatorType)
      → last? (op ∷ ops) ≡ some (or_identity (last? (op ∷ ops)))
  last-or_identity op [] = refl
  last-or_identity op (next ∷ ops) = last-or_identity next ops

  -- A job that reads something and has a node to run has one task for each partition. The i-th reads the
  -- job's source and runs all planned operators on partition i, in their order and with the identifiers
  -- of their nodes; its stage is the place of the last of them, which is its operator; and each operator
  -- has as incoming edges exactly the edges of the dag that end at its node, in the dag's order, as
  -- texts of their two ends.
  pub materialize_tasks-IsTaskOf :
      (r : IsRunnable)
      → (length tasks ≡ d.partitions)
        × ((i : ℕ)
            → i < d.partitions
            → (t : Task) × (get_elem? tasks i ≡ some t) × IsTaskOf i r.source t)
  materialize_tasks-IsTaskOf r = (
    length-tasks r,
    λ i h. (
      task_for iter new_v5 d job_id r.source (r.first ∷ r.rest) i,
      task_at r i h,
      record {
        partition = refl;
        total = refl;
        job = refl;
        input = refl;
        operators = ap (map (λ n. n.operator)) (sym r.nodes);
        ids = ap (map (λ n. n.id)) (sym r.nodes);
        edges = edges_into-AllIncoming d.edges (map (λ n. n.id) (r.first ∷ r.rest));
        stage = omega arith;
        last = last-or_identity r.first.operator (map (λ n. n.operator) r.rest);
      },
    ),
  )

  -- Every task is of the job.
  pub materialize_tasks_job : All (λ t. t.job_id ≡ job_id) tasks
  unfolding materialize_tasks
  materialize_tasks_job = go (read_source d) (planned_nodes iter d)
    where
      each :
          (source : String × String) (nodes : List DagNode) (is : List ℕ)
          → All (λ t. t.job_id ≡ job_id) (map (task_for iter new_v5 d job_id source nodes) is)
      each source nodes [] = tt
      each source nodes (i ∷ is) = (refl, each source nodes is)

      go :
          (source : Option (String × String)) (nodes : List DagNode)
          → All (λ t. t.job_id ≡ job_id) (tasks_of iter new_v5 d job_id source nodes)
      go none nodes = tt
      go (some source) [] = tt
      go (some source) (n ∷ nodes) = each source (n ∷ nodes) (range 0 d.partitions)

  -- The identifiers of two tasks of a job differ, if the name-based UUIDs of different names do.
  pub materialize_tasks_distinct :
      ((a b : String) → new_v5 job_id a ≡ new_v5 job_id b → a ≡ b)
      → IsRunnable
      → (i j : ℕ) (s t : Task) → i < d.partitions
      → j < d.partitions
      → get_elem? tasks i ≡ some s
      → get_elem? tasks j ≡ some t
      → i ≢ j
      → s.task_id ≢ t.task_id
  materialize_tasks_distinct inj r i j s t hi hj es et differ same = differ (
      show_nat_inj i j (
        append_cancel_left "-" (show_nat i) (show_nat j) (
          append_cancel_left (show_nat (length (map (λ n. n.operator) (r.first ∷ r.rest)) - 1)) _ _
            (inj _ _ (named i s hi es ∙ same ∙ sym (named j t hj et))))))
    where
      named :
          (k : ℕ) (u : Task)
          → k < d.partitions
          → get_elem? tasks k ≡ some u
          → stable_id new_v5 job_id (length (map (λ n. n.operator) (r.first ∷ r.rest)) - 1) k
            ≡ u.task_id
      named k u h e = ap (λ (t : Task). t.task_id) (some-injective _ _ (sym (task_at r k h) ∙ e))

-- ===== src/Dag.antt =====
-- Planning of a job: the methods of `DagSpecification` in src/common/dag.rs.
pub mod Validation
pub mod Injection
pub mod Tasks
mod Tests
pub mod Counters
pub mod Queue
pub mod Membership
pub mod Termination
pub mod Sorting
use Prim.Native.String.{◌++◌ as append}
use distributed_processing_e.Base.{
  ℕ, zero, suc, ◌+◌, ◌-◌, String, Bool, true, false, Option, none, some, List, [], ◌∷◌, ◌++◌, map,
  keep, any, find, find_map, filter_map, last?, length, not, if◌then◌else◌,
}
use distributed_processing_e.Base.Decimal.{show_nat}
use distributed_processing_e.Base.Eq.{◌==◌, string_eq, nat_eq}
use distributed_processing_e.Base.Map.{HashMap, get, insert, keys}
use distributed_processing_e.Base.Outcome.{Outcome, ok, err}
use distributed_processing_e.Base.Range.{range, enumerate}
use distributed_processing_e.Spec.{
  OperatorType, DagNode, DagEdge, DagSpecification, Stage, read, join, reduce_by_key,
  shuffle_by_key, identity,
}
use distributed_processing_e.Types.{JobId, TaskId, Task}

abbrev pub is_join : OperatorType → Bool
is_join (join key join_type) = true
is_join _ = false

unfoldable pub incoming_count : List DagEdge → String → ℕ
incoming_count edges id = length (keep (λ e. e.to == id) edges)

abbrev pub join_error : String → ℕ → String
join_error id incoming =
    append "join node '"
      (append id (append "' must have exactly 2 parents (found " (append (show_nat incoming) ")")))

unfoldable pub validate_nodes : List DagEdge → List DagNode → Outcome (Unit {0})
unfolding incoming_count show_nat
validate_nodes edges [] = ok tt
validate_nodes edges (node ∷ nodes) =
    let rest = validate_nodes edges nodes in
    let incoming = incoming_count edges node.id in
    if is_join node.operator
    then (if incoming == 2 then rest else err (join_error node.id incoming))
    else rest

unfoldable pub validate : DagSpecification → Outcome (Unit {0})
unfolding validate_nodes
validate d = validate_nodes d.edges d.nodes

-- The body of the edge loop of `ordered_nodes`. A counter is at most the length of a `Vec`, so the
-- `usize` sum does not wrap.
abbrev pub count_of : HashMap String ℕ → String → ℕ
count_of m k = elim (get m k) [ none ↦ 0 | some n ↦ n ]

abbrev pub children_of : HashMap String (List String) → String → List String
children_of m k = elim (get m k) [ none ↦ [] | some ids ↦ ids ]

unfoldable pub zero_counts : List DagNode → HashMap String ℕ → HashMap String ℕ
unfolding insert
zero_counts [] m = m
zero_counts (n ∷ nodes) m = zero_counts nodes (insert m n.id 0)

unfoldable pub count_edges : List DagEdge → HashMap String ℕ → HashMap String ℕ
unfolding insert get
count_edges [] m = m
count_edges (e ∷ edges) m = count_edges edges (insert m e.to (count_of m e.to + 1))

unfoldable pub link_edges :
    List DagEdge → HashMap String (List String) → HashMap String (List String)
unfolding insert get
link_edges [] m = m
link_edges (e ∷ edges) m = link_edges edges (insert m e.from (children_of m e.from ++ e.to ∷ []))

-- One child of a popped node: its counter falls, and at zero it joins the queue.
abbrev pub lower : String → HashMap String ℕ × List String → HashMap String ℕ × List String
lower child (incoming, queue) = elim (get incoming child) [
  | none ↦ (incoming, queue)
  | some counter ↦
      (insert incoming child (counter - 1), if counter - 1 == 0 then queue ++ child ∷ [] else queue)
]

unfoldable pub lower_all :
    List String → HashMap String ℕ × List String → HashMap String ℕ × List String
unfolding insert get
lower_all [] s = s
lower_all (child ∷ children) s = lower_all children (lower child s)

-- The `while` loop: the ordered ids, and what is left in the queue when the fuel runs out.
unfoldable pub topo_loop :
    HashMap String (List String)
    → ℕ
    → HashMap String ℕ × List String
    → List String
    → List String × List String
unfolding lower_all get
topo_loop outgoing zero (incoming, queue) ordered = (ordered, queue)
topo_loop outgoing (suc fuel) (incoming, []) ordered = (ordered, [])
topo_loop outgoing (suc fuel) (incoming, id ∷ queue) ordered =
    topo_loop outgoing fuel (lower_all (children_of outgoing id) (incoming, queue))
      (ordered ++ id ∷ [])

-- Nodes that the loop has not reached follow in their own order.
unfoldable pub append_rest : List DagNode → List String → List String
append_rest [] ordered = ordered
append_rest (n ∷ nodes) ordered =
    append_rest nodes (if any (λ id. id == n.id) ordered then ordered else ordered ++ n.id ∷ [])

abbrev pub node_by_id : List DagNode → String → Option DagNode
node_by_id nodes id = find (λ n. n.id == id) nodes

abbrev pub is_nil : List DagEdge → Bool
is_nil [] = true
is_nil (e ∷ edges) = false

-- `iter` is the order in which the map of counters is iterated.
module _ (iter : HashMap String ℕ → HashMap String ℕ) where
  abbrev pub ready_ids : HashMap String ℕ → List String
  ready_ids incoming = keys (keep (λ entry. entry.1 == 0) (iter incoming))

  unfoldable pub ordered_ids : DagSpecification → List String
  unfolding zero_counts count_edges link_edges topo_loop append_rest
  ordered_ids d =
      let incoming = count_edges d.edges (zero_counts d.nodes []) in
      let outgoing = link_edges d.edges [] in
      let (ordered, left) =
        topo_loop outgoing (length incoming) (incoming, ready_ids incoming) [] in
      append_rest d.nodes ordered

  unfoldable pub ordered_nodes : DagSpecification → List DagNode
  unfolding ordered_ids
  ordered_nodes d =
      if is_nil d.edges then d.nodes else filter_map (node_by_id d.nodes) (ordered_ids d)

  unfoldable pub to_stages : DagSpecification → List Stage
  unfolding ordered_nodes
  to_stages d =
      map (λ (idx, node). record { stage_id = idx; nodes = node ∷ []; partitions = d.partitions })
        (enumerate 0 (ordered_nodes d))

abbrev shuffles_by : String → OperatorType → Bool
shuffles_by key (shuffle_by_key k total) = k == key
shuffles_by key _ = false

abbrev has_shuffle_before : String → Option DagNode → Bool
has_shuffle_before key none = false
has_shuffle_before key (some n) = shuffles_by key n.operator

abbrev pub shuffle_node : ℕ → String → String → DagNode
shuffle_node partitions id key = record {
  id = append "__shuffle_" (append id "__");
  operator = shuffle_by_key key partitions;
}

abbrev inject_before : ℕ → OperatorType → DagNode → List DagNode → List DagNode
inject_before partitions (reduce_by_key key op) node out =
    if has_shuffle_before key (last? out)
    then out ++ node ∷ []
    else (out ++ shuffle_node partitions node.id key ∷ []) ++ node ∷ []
inject_before partitions _ node out = out ++ node ∷ []

-- The loop over the nodes, with what `out` holds so far.
unfoldable pub inject_onto : ℕ → List DagNode → List DagNode → List DagNode
inject_onto partitions out [] = out
inject_onto partitions out (node ∷ nodes) =
    inject_onto partitions (inject_before partitions node.operator node out) nodes

unfoldable pub inject_local_shuffle : DagSpecification → List DagNode → List DagNode
unfolding inject_onto
inject_local_shuffle d nodes = inject_onto d.partitions [] nodes

abbrev pub source_of : OperatorType → Option (String × String)
source_of (read uri format) = some (uri, format)
source_of _ = none

unfoldable pub read_source : DagSpecification → Option (String × String)
read_source d = find_map (λ n. source_of n.operator) d.nodes

abbrev pub edge_text : DagEdge → String
edge_text e = append e.from (append "->" e.to)

unfoldable pub edges_into : List DagEdge → String → List String
edges_into edges id = map edge_text (keep (λ e. e.to == id) edges)

abbrev pub or_identity : Option OperatorType → OperatorType
or_identity none = identity
or_identity (some op) = op

-- The nodes in the order in which a task runs them.
abbrev pub planned_nodes : (HashMap String ℕ → HashMap String ℕ) → DagSpecification → List DagNode
planned_nodes iter d = inject_local_shuffle d (ordered_nodes iter d)

-- `new_v5` is the name-based UUID of the `uuid` crate.
abbrev pub stable_id : (ℕ → String → ℕ) → JobId → ℕ → ℕ → TaskId
stable_id new_v5 job_id final_stage_id partition =
    new_v5 job_id (append (show_nat final_stage_id) (append "-" (show_nat partition)))

module _ (iter : HashMap String ℕ → HashMap String ℕ) (new_v5 : ℕ → String → ℕ) where
  -- The task of one partition.
  abbrev pub task_for : DagSpecification → JobId → String × String → List DagNode → ℕ → Task
  task_for d job_id (uri, format) nodes partition =
      let operators = map (λ n. n.operator) nodes in
      let operator_ids = map (λ n. n.id) nodes in
      let final_stage_id = length operators - 1 in
      record {
        task_id = stable_id new_v5 job_id final_stage_id partition;
        job_id = job_id;
        stage_id = final_stage_id;
        attempt = 0;
        operator = or_identity (last? operators);
        operators = operators;
        operator_ids = operator_ids;
        incoming_edges = map (edges_into d.edges) operator_ids;
        partition = partition;
        input_uri = uri;
        input_format = format;
        total_partitions = d.partitions;
      }

  abbrev tasks_of : DagSpecification → JobId → Option (String × String) → List DagNode → List Task
  tasks_of d job_id none nodes = []
  tasks_of d job_id (some source) [] = []
  tasks_of d job_id (some source) (n ∷ nodes) =
      map (task_for d job_id source (n ∷ nodes)) (range 0 d.partitions)

  unfoldable pub materialize_tasks : DagSpecification → JobId → List Task
  unfolding read_source inject_local_shuffle ordered_nodes edges_into show_nat
  materialize_tasks d job_id = tasks_of d job_id (read_source d) (planned_nodes iter d)

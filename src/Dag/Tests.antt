-- ===== src/Dag/Tests.antt =====
-- The planning theorems at a word count in two partitions.
use distributed_processing_e.Base.{
  ℕ, map, String, ◌≡◌, ◌↔◌, ◌≢◌, ◌<◌, refl, Among, length, get_elem?, some, none, List, [], ◌∷◌,
  arith,
}
use distributed_processing_e.Base.Outcome.{ok, err}
use distributed_processing_e.Dag.{
  validate, inject_local_shuffle, materialize_tasks, planned_nodes, ordered_nodes, shuffle_node,
  read_source, task_for, topo_loop, link_edges, ready_ids,
}
use distributed_processing_e.Dag.Injection.{
  AllPrepared, WithShuffles, inject_local_shuffle-AllPrepared, inject_local_shuffle-WithShuffles,
}
use distributed_processing_e.Dag.Membership.{ordered_nodes_rearrange}
use distributed_processing_e.Dag.Queue.{AllDifferent}
use distributed_processing_e.Dag.Sorting.{ParentsFirst, topo_loop-sorted}
use distributed_processing_e.Dag.Tasks.{
  IsRunnable, IsTaskOf, materialize_tasks-IsTaskOf, materialize_tasks_distinct,
}
use distributed_processing_e.Dag.Termination.{IsOrder, start, topo_loop_ends}
use distributed_processing_e.Dag.Validation.{validate_iff, HasTwoParents}
use distributed_processing_e.Samples.{env, word_count, text_number_inj}
use distributed_processing_e.Spec.{DagSpecification, DagNode, OperatorType, JoinType}
use distributed_processing_e.Types.{Task}

-- A join with one parent.
abbrev lone_join : DagSpecification
lone_join = record {
  nodes =
      record { id = "a"; operator = OperatorType.read "a.txt" "txt" }
      ∷ record { id = "j"; operator = OperatorType.join "k" JoinType.inner }
      ∷ [];
  edges = record { from = "a"; to = "j" } ∷ [];
  partitions = 1;
}

lone_join_refused : validate lone_join ≡ err "join node 'j' must have exactly 2 parents (found 1)"
unfolding validate
lone_join_refused = refl

validate_iff_example :
    (validate lone_join ≡ ok tt)
    ↔ ((node : DagNode) → Among node lone_join.nodes → HasTwoParents lone_join.edges node)
validate_iff_example = validate_iff lone_join

word_count_ordered : ordered_nodes (env.iter 0) word_count ≡ word_count.nodes
unfolding ordered_nodes
word_count_ordered = refl

AllPrepared_example : AllPrepared none (inject_local_shuffle word_count word_count.nodes)
AllPrepared_example = inject_local_shuffle-AllPrepared word_count word_count.nodes

WithShuffles_example :
    WithShuffles 2 word_count.nodes (inject_local_shuffle word_count word_count.nodes)
WithShuffles_example = inject_local_shuffle-WithShuffles word_count word_count.nodes

abbrev planned : List DagNode
planned =
    shuffle_node 2 "sum" "word"
    ∷ record { id = "sum"; operator = OperatorType.reduce_by_key "word" "sum" }
    ∷ []

word_count-planned :
    planned_nodes (env.iter 0) word_count
    ≡ record { id = "in"; operator = OperatorType.read "words.txt" "txt" } ∷ planned
unfolding ordered_nodes inject_local_shuffle
word_count-planned = refl

word_count_source : read_source word_count ≡ some ("words.txt", "txt")
unfolding read_source
word_count_source = refl

abbrev runnable : IsRunnable (env.iter 0) env.new_v5 word_count 1
runnable = record {
  source = ("words.txt", "txt");
  reads = word_count_source;
  first = record { id = "in"; operator = OperatorType.read "words.txt" "txt" };
  rest = planned;
  nodes = word_count-planned;
}

abbrev tasks : List Task
tasks = materialize_tasks (env.iter 0) env.new_v5 word_count 1

tasks_example :
    (length tasks ≡ 2)
    × ((i : ℕ)
        → i < 2
        → (t : Task) × (get_elem? tasks i ≡ some t)
          × IsTaskOf (env.iter 0) env.new_v5 word_count 1 i runnable.source t)
tasks_example = materialize_tasks-IsTaskOf (env.iter 0) env.new_v5 word_count 1 runnable

zero_not_one : ◌≢◌ {A = ℕ} 0 1
zero_not_one e = cc

abbrev task_on : ℕ → Task
task_on =
    task_for (env.iter 0) env.new_v5 word_count 1 runnable.source (runnable.first ∷ runnable.rest)

tasks_distinct_example : (task_on 0).task_id ≢ (task_on 1).task_id
unfolding materialize_tasks
tasks_distinct_example =
    materialize_tasks_distinct (env.iter 0) env.new_v5 word_count 1 text_number_inj runnable 0 1
      (task_on 0) (task_on 1) (omega arith) (omega arith) refl refl zero_not_one

-- A map that is iterated as it is stored.
abbrev stored_order : IsOrder (λ m. m)
stored_order = record { same = λ m d k. refl; distinct = λ m d. d; count = λ m p. refl }

abbrev read_node : String → String → DagNode
read_node id uri = record { id = id; operator = OperatorType.read uri "txt" }

-- Two nodes that wait for each other: the loop reaches neither, and both follow in their own order.
abbrev cycle : DagSpecification
cycle = record {
  nodes = read_node "a" "a.txt" ∷ read_node "b" "b.txt" ∷ [];
  edges = record { from = "a"; to = "b" } ∷ record { from = "b"; to = "a" } ∷ [];
  partitions = 1;
}

cycle_ordered : ordered_nodes (env.iter 0) cycle ≡ cycle.nodes
unfolding ordered_nodes
cycle_ordered = refl

rearrange_example :
    AllDifferent (map (λ n. n.id) (ordered_nodes (env.iter 0) cycle))
    × ((n : DagNode) → Among n (ordered_nodes (env.iter 0) cycle) ↔ Among n cycle.nodes)
rearrange_example = ordered_nodes_rearrange (env.iter 0) cycle stored_order (refl, (refl, tt))

topo_loop_ends_example :
    (topo_loop
      (link_edges word_count.edges [])
      (length (start word_count))
      (start word_count, ready_ids (λ m. m) (start word_count))
      []).1
    ≡ []
topo_loop_ends_example = topo_loop_ends (λ m. m) word_count stored_order

abbrev looped : List String
looped =
    (topo_loop (link_edges word_count.edges []) (length (start word_count))
      (start word_count, ready_ids (λ m. m) (start word_count)) []).0

topo_loop-sorted_example : AllDifferent looped × ParentsFirst word_count.edges [] looped
topo_loop-sorted_example = topo_loop-sorted (λ m. m) word_count stored_order

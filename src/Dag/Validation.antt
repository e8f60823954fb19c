-- ===== src/Dag/Validation.antt =====
-- What `validate` accepts.
use mathlib.Core.Path.{subst}
use distributed_processing_e.Base.{◌≡◌, ◌↔◌, refl, true, List, [], ◌∷◌, arith, Among, inl, inr}
use distributed_processing_e.Base.Eq.{nat_eq}
use distributed_processing_e.Base.Outcome.{ok}
use distributed_processing_e.Dag.{is_join, incoming_count, validate_nodes, validate}
use distributed_processing_e.Spec.{DagSpecification, DagNode, DagEdge}

-- A join has two parents.
abbrev pub HasTwoParents : List DagEdge → DagNode → Type 0
HasTwoParents edges node = is_join node.operator ≡ true → incoming_count edges node.id ≡ 2

validate_nodes-ok :
    (edges : List DagEdge) (nodes : List DagNode)
    → validate_nodes edges nodes ≡ ok tt
    → (node : DagNode) → Among node nodes
    → HasTwoParents edges node
unfolding validate_nodes
validate_nodes-ok edges [] h node m = absurd m
validate_nodes-ok edges (n ∷ nodes) h node (inl e) = subst (HasTwoParents edges) e (head_ok h)
  where
    head_ok : validate_nodes edges (n ∷ nodes) ≡ ok tt → HasTwoParents edges n
    head_ok accepted joins = ground arith
validate_nodes-ok edges (n ∷ nodes) h node (inr m) =
    validate_nodes-ok edges nodes (ground arith) node m

ok-validate_nodes :
    (edges : List DagEdge) (nodes : List DagNode)
    → ((node : DagNode) → Among node nodes → HasTwoParents edges node)
    → validate_nodes edges nodes ≡ ok tt
unfolding validate_nodes
ok-validate_nodes edges [] h = refl
ok-validate_nodes edges (n ∷ nodes) h =
    ground (arith, h n (inl refl), ok-validate_nodes edges nodes (λ node m. h node (inr m)))

-- `validate` accepts exactly the specifications in which each join has two incoming edges.
pub validate_iff :
    (d : DagSpecification)
    → (validate d ≡ ok tt) ↔ ((node : DagNode) → Among node d.nodes → HasTwoParents d.edges node)
unfolding validate
validate_iff d = (validate_nodes-ok d.edges d.nodes, ok-validate_nodes d.edges d.nodes)

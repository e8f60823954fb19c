-- ===== src/Dag/Injection.antt =====
-- `inject_local_shuffle`: where it puts shuffles, and that it does nothing else.
use mathlib.Core.List.{append-nil, append_assoc}
use text.Mathlib.TextPositions.{eq_refl}
use distributed_processing_e.Base.{
  ℕ, String, ◌≡◌, refl, sym, ap, ◌∙◌, true, Option, none, some, List, [], ◌∷◌, ◌++◌, inl, inr,
  Bool-cases, last?, if◌then◌else◌,
}
use distributed_processing_e.Base.Eq.{string_eq}
use distributed_processing_e.Dag.{
  has_shuffle_before, shuffle_node, inject_before, inject_onto, inject_local_shuffle,
}
use distributed_processing_e.Spec.{DagSpecification, DagNode, OperatorType, read, reduce_by_key}

-- What stands in front of a node, given the node before it.
added : ℕ → OperatorType → String → Option DagNode → List DagNode
added partitions (reduce_by_key key op) id before =
    if has_shuffle_before key before then [] else shuffle_node partitions id key ∷ []
added partitions _ id before = []

inject_from : ℕ → Option DagNode → List DagNode → List DagNode
inject_from partitions before [] = []
inject_from partitions before (node ∷ nodes) =
    added partitions node.operator node.id before ++ node ∷ inject_from partitions (some node) nodes

last?-snoc : (xs : List DagNode) (x : DagNode) → last? (xs ++ x ∷ []) ≡ some x
last?-snoc [] x = refl
last?-snoc (y ∷ []) x = refl
last?-snoc (y ∷ z ∷ xs) x = last?-snoc (z ∷ xs) x

inject_before-added :
    (partitions : ℕ) (op : OperatorType) (node : DagNode) (out : List DagNode)
    → inject_before partitions op node out
      ≡ (out ++ added partitions op node.id (last? out)) ++ node ∷ []
unfolding added
inject_before-added partitions (reduce_by_key key op) node out =
    elim (Bool-cases (has_shuffle_before key (last? out))) [
      | inl hit ↦ rw (hit, append-nil)
      | inr miss ↦ rw miss
    ]
inject_before-added partitions _ node out = rw append-nil

inject_onto-from :
    (partitions : ℕ) (out nodes : List DagNode)
    → inject_onto partitions out nodes ≡ out ++ inject_from partitions (last? out) nodes
unfolding inject_onto inject_from
inject_onto-from partitions out [] = sym (append-nil out)
inject_onto-from partitions out (node ∷ nodes) =
    ap (λ o. inject_onto partitions o nodes) (inject_before-added partitions node.operator node out)
    ∙ inject_onto-from partitions
        ((out ++ added partitions node.operator node.id (last? out)) ++ node ∷ []) nodes
    ∙ ap
        (λ l.
          ((out ++ added partitions node.operator node.id (last? out)) ++ node ∷ [])
          ++ inject_from partitions l nodes)
        (last?-snoc (out ++ added partitions node.operator node.id (last? out)) node)
    ∙ append_assoc _ (node ∷ []) _
    ∙ append_assoc out _ _

inject_local_shuffle-from :
    (d : DagSpecification) (nodes : List DagNode)
    → inject_local_shuffle d nodes ≡ inject_from d.partitions none nodes
unfolding inject_local_shuffle
inject_local_shuffle-from d nodes = inject_onto-from d.partitions [] nodes

-- A keyed reduction stands directly behind a shuffle by its key.
abbrev pub IsPrepared : OperatorType → Option DagNode → Type 0
IsPrepared (reduce_by_key key op) before = has_shuffle_before key before ≡ true
IsPrepared _ before = Unit

abbrev pub AllPrepared : Option DagNode → List DagNode → Type 0
AllPrepared before [] = Unit
AllPrepared before (n ∷ nodes) = IsPrepared n.operator before × AllPrepared (some n) nodes

-- `out` is `nodes` with shuffles, of the job's partition count, put between.
pub data WithShuffles (partitions : ℕ) : List DagNode → List DagNode → Type 0 where
  done : WithShuffles partitions [] []
  node :
      (n : DagNode) {nodes out : List DagNode}
      → WithShuffles partitions nodes out
      → WithShuffles partitions (n ∷ nodes) (n ∷ out)
  shuffle :
      (id key : String) {nodes out : List DagNode}
      → WithShuffles partitions nodes out
      → WithShuffles partitions nodes (shuffle_node partitions id key ∷ out)

added-WithShuffles :
    (partitions : ℕ) (op : OperatorType) (id : String) (before : Option DagNode)
    {nodes out : List DagNode}
    → WithShuffles partitions nodes out
    → WithShuffles partitions nodes (added partitions op id before ++ out)
unfolding added
added-WithShuffles partitions (reduce_by_key key op) id before w =
    elim (Bool-cases (has_shuffle_before key before)) [
      | inl hit ↦ rw hit w
      | inr miss ↦ rw miss (shuffle id key w)
    ]
added-WithShuffles partitions _ id before w = w

inject_from-WithShuffles :
    (partitions : ℕ) (before : Option DagNode) (nodes : List DagNode)
    → WithShuffles partitions nodes (inject_from partitions before nodes)
unfolding inject_from
inject_from-WithShuffles partitions before [] = done
inject_from-WithShuffles partitions before (n ∷ nodes) =
    added-WithShuffles partitions n.operator n.id before
      (node n (inject_from-WithShuffles partitions (some n) nodes))

prepare :
    (partitions : ℕ) (before : Option DagNode) (n : DagNode) (op : OperatorType)
    (out : List DagNode)
    → n.operator ≡ op
    → AllPrepared (some n) out
    → AllPrepared before (added partitions op n.id before ++ n ∷ out)
unfolding added
prepare partitions before n (reduce_by_key key op) out e h =
    elim (Bool-cases (has_shuffle_before key before)) [
      | inl hit ↦ rw hit (rw e hit, h)
      | inr miss ↦ rw miss (tt, (rw e (eq_refl key), h))
    ]
prepare partitions before n (read uri format) out e h = (rw e tt, h)
prepare partitions before n _ out e h = (rw e tt, h)

inject_from-AllPrepared :
    (partitions : ℕ) (before : Option DagNode) (nodes : List DagNode)
    → AllPrepared before (inject_from partitions before nodes)
unfolding inject_from
inject_from-AllPrepared partitions before [] = tt
inject_from-AllPrepared partitions before (n ∷ nodes) =
    prepare partitions before n n.operator (inject_from partitions (some n) nodes) refl
      (inject_from-AllPrepared partitions (some n) nodes)

added-nil :
    (partitions : ℕ) (op : OperatorType) (id : String) (before : Option DagNode)
    → IsPrepared op before
    → added partitions op id before ≡ []
unfolding added
added-nil partitions (reduce_by_key key op) id before h = rw h
added-nil partitions (read uri format) id before h = refl
added-nil partitions _ id before h = refl

inject_from-same :
    (partitions : ℕ) (before : Option DagNode) (nodes : List DagNode)
    → AllPrepared before nodes
    → inject_from partitions before nodes ≡ nodes
unfolding inject_from
inject_from-same partitions before [] h = refl
inject_from-same partitions before (n ∷ nodes) h =
    rw (added-nil partitions n.operator n.id before h.0)
      (ap (◌∷◌ n) (inject_from-same partitions (some n) nodes h.1))

-- In the result every keyed reduction stands directly behind a shuffle by its key.
pub inject_local_shuffle-AllPrepared :
    (d : DagSpecification) (nodes : List DagNode) → AllPrepared none (inject_local_shuffle d nodes)
inject_local_shuffle-AllPrepared d nodes =
    rw inject_local_shuffle-from (inject_from-AllPrepared d.partitions none nodes)

-- The result is the given nodes in their order, with shuffles over the job's partitions put between
-- and nothing else.
pub inject_local_shuffle-WithShuffles :
    (d : DagSpecification) (nodes : List DagNode)
    → WithShuffles d.partitions nodes (inject_local_shuffle d nodes)
inject_local_shuffle-WithShuffles d nodes =
    rw inject_local_shuffle-from (inject_from-WithShuffles d.partitions none nodes)

-- A second pass adds nothing.
inject_local_shuffle_idem :
    (d : DagSpecification) (nodes : List DagNode)
    → inject_local_shuffle d (inject_local_shuffle d nodes) ≡ inject_local_shuffle d nodes
inject_local_shuffle_idem d nodes =
    inject_local_shuffle-from d (inject_local_shuffle d nodes)
    ∙ inject_from-same d.partitions none (inject_local_shuffle d nodes)
        (inject_local_shuffle-AllPrepared d nodes)

-- The planned list is empty only where the given one is.
pub inject_local_shuffle-nil :
    (d : DagSpecification) (nodes : List DagNode) → inject_local_shuffle d nodes ≡ [] → nodes ≡ []
inject_local_shuffle-nil d [] h = refl
inject_local_shuffle-nil d (n ∷ nodes) h =
    absurd (no_nodes n nodes (rw h at (inject_local_shuffle-WithShuffles d (n ∷ nodes))))
  where
    no_nodes : (n : DagNode) (nodes : List DagNode) → WithShuffles d.partitions (n ∷ nodes) [] → ⊥
    no_nodes n nodes w = elim w [ ]

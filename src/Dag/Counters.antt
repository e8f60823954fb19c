-- ===== src/Dag/Counters.antt =====
-- The counters of `ordered_nodes` of src/common/dag.rs: how they start and how they fall.
use mathlib.Core.List.{append_assoc, append-nil}
use distributed_processing_e.Base.{
  ℕ, suc, ◌+◌, ◌≡◌, inl, inr, refl, sym, ap, ◌∙◌, String, Bool, false, not, ◌&&◌, ◌||◌, none, some,
  List, [], ◌∷◌, ◌++◌, any, keep, length, arith, ltb, if◌then◌else◌, Bool-cases,
}
use distributed_processing_e.Base.Eq.{◌==◌, string_eq, nat_eq}
use distributed_processing_e.Base.Map.{HashMap, get, insert, Distinct, get-insert, insert-Distinct}
use distributed_processing_e.Dag.{count_of, children_of, zero_counts, count_edges, link_edges}
use distributed_processing_e.Spec.{DagNode, DagEdge}

abbrev pub Counters : Type 0
Counters = HashMap String ℕ

abbrev pub holds : String → List String → Bool
holds x xs = any (λ y. y == x) xs

-- The edges into `y` from nodes that are not in `ordered`.
abbrev pub open_edges : List String → List DagEdge → String → ℕ
open_edges ordered [] y = 0
open_edges ordered (e ∷ edges) y =
    let rest = open_edges ordered edges y in
    if e.to == y && not (holds e.from ordered) then suc rest else rest

abbrev pub occurrences : String → List String → ℕ
occurrences y [] = 0
occurrences y (x ∷ xs) = let rest = occurrences y xs in if x == y then suc rest else rest

-- The children of a node, one for each edge.
abbrev pub child_ids : String → List DagEdge → List String
child_ids id [] = []
child_ids id (e ∷ edges) =
    let rest = child_ids id edges in if e.from == id then e.to ∷ rest else rest

children_of-insert :
    (m : HashMap String (List String)) (k : String) (v : List String) (id : String)
    → children_of (insert m k v) id ≡ (if k == id then v else children_of m id)
children_of-insert m k v id =
    ap (λ o. elim o [ none ↦ [] | some ids ↦ ids ]) (get-insert m k v id)
    ∙ elim (Bool-cases (k == id)) [ inl same ↦ rw same | inr other ↦ rw other ]

pub children_of-link_edges :
    (edges : List DagEdge) (m : HashMap String (List String)) (id : String)
    → children_of (link_edges edges m) id ≡ children_of m id ++ child_ids id edges
unfolding link_edges
children_of-link_edges [] m id = sym (append-nil (children_of m id))
children_of-link_edges (e ∷ edges) m id =
    children_of-link_edges edges (insert m e.from (children_of m e.from ++ e.to ∷ [])) id
    ∙ ap (λ ids. ids ++ child_ids id edges)
        (children_of-insert m e.from (children_of m e.from ++ e.to ∷ []) id)
    ∙ elim (Bool-cases (e.from == id)) [
      | inl same ↦ rw same (
          ap (λ x. (children_of m x ++ e.to ∷ []) ++ child_ids id edges)
            ((string_eq.same_iff e.from id).0 same)
          ∙ append_assoc (children_of m id) (e.to ∷ []) (child_ids id edges))
      | inr other ↦ rw other
    ]

pub count_of-insert :
    (m : Counters) (k : String) (v : ℕ) (y : String)
    → count_of (insert m k v) y ≡ (if k == y then v else count_of m y)
count_of-insert m k v y =
    ap (λ o. elim o [ none ↦ 0 | some n ↦ n ]) (get-insert m k v y)
    ∙ elim (Bool-cases (k == y)) [ inl same ↦ rw same | inr other ↦ rw other ]

pub count_of-count_edges :
    (edges : List DagEdge) (m : Counters) (y : String)
    → count_of (count_edges edges m) y ≡ count_of m y + open_edges [] edges y
unfolding count_edges
count_of-count_edges [] m y = omega arith
count_of-count_edges (e ∷ edges) m y =
    count_of-count_edges edges (insert m e.to (count_of m e.to + 1)) y
    ∙ ap (λ n. n + open_edges [] edges y) (count_of-insert m e.to (count_of m e.to + 1) y)
    ∙ elim (Bool-cases (e.to == y)) [
      | inl same ↦ rw same (
          ap (λ x. count_of m x + 1 + open_edges [] edges y) ((string_eq.same_iff e.to y).0 same)
          ∙ omega arith)
      | inr other ↦ rw other
    ]

pub count_of-zero_counts :
    (nodes : List DagNode) (m : Counters)
    → ((y : String) → count_of m y ≡ 0)
    → (y : String) → count_of (zero_counts nodes m) y ≡ 0
unfolding zero_counts
count_of-zero_counts [] m h y = h y
count_of-zero_counts (n ∷ nodes) m h y =
    count_of-zero_counts nodes (insert m n.id 0)
      (λ x.
        count_of-insert m n.id 0 x
        ∙ elim (Bool-cases (n.id == x)) [ inl same ↦ rw same | inr other ↦ rw other (h x) ])
      y

pub zero_counts-Distinct :
    (nodes : List DagNode) (m : Counters) → Distinct m → Distinct (zero_counts nodes m)
unfolding zero_counts
zero_counts-Distinct [] m h = h
zero_counts-Distinct (n ∷ nodes) m h =
    zero_counts-Distinct nodes (insert m n.id 0) (insert-Distinct m n.id 0 h)

pub count_edges-Distinct :
    (edges : List DagEdge) (m : Counters) → Distinct m → Distinct (count_edges edges m)
unfolding count_edges
count_edges-Distinct [] m h = h
count_edges-Distinct (e ∷ edges) m h =
    count_edges-Distinct edges (insert m e.to (count_of m e.to + 1)) (insert-Distinct m e.to _ h)

-- How many counters are above zero.
unfoldable pub positives : Counters → ℕ
positives m = length (keep (λ entry. ltb 0 entry.1) m)

pub positives-insert :
    (m : Counters) (c : String) (k : ℕ)
    → get m c ≡ some (suc k)
    → positives m ≡ positives (insert m c k) + (if ltb 0 k then 0 else 1)
unfolding positives get insert
positives-insert [] c k h = cc
positives-insert ((x, v) ∷ m) c k h = ground (arith, positives-insert m c k, string_eq.same_iff x c)

pub holds-snoc :
    (x : String) (xs : List String) (id : String)
    → holds x (xs ++ id ∷ []) ≡ (holds x xs || id == x)
holds-snoc x [] id = ground arith
holds-snoc x (y ∷ xs) id = ground (arith, holds-snoc x xs id)

-- What is taken from the front of the queue closes its edges.
pub open_edges-snoc :
    (id : String) (ordered : List String) (edges : List DagEdge) (y : String)
    → holds id ordered ≡ false
    → open_edges ordered edges y
      ≡ open_edges (ordered ++ id ∷ []) edges y + occurrences y (child_ids id edges)
open_edges-snoc id ordered [] y h = refl
open_edges-snoc id ordered (e ∷ edges) y h = elim (Bool-cases (e.from == id)) [
  | inl same ↦
      let here = (string_eq.same_iff e.from id).0 same in
      ground (
        arith,
        ap (λ x. holds x ordered) here ∙ h,
        holds-snoc e.from ordered id,
        (string_eq.same_iff id e.from).1 (sym here),
        open_edges-snoc id ordered edges y h,
      )
  | inr other ↦ ground (
    arith,
    holds-snoc e.from ordered id,
    string_eq.same_iff id e.from,
    string_eq.same_iff e.from id,
    open_edges-snoc id ordered edges y h,
  )
]

-- ===== src/Dag/Termination.antt =====
-- The queue loop of `ordered_nodes` of src/common/dag.rs ends: as many rounds as there are counters
-- empty the queue.
use mathlib.Core.Option.{some-injective, none-ne-some}
use distributed_processing_e.Base.{
  false_not_true, ℕ, ◌+◌, ◌≡◌, refl, sym, ap, ◌∙◌, String, Bool, true, false, Option, none, some,
  [], ◌∷◌, keep, length, length-map, arith, Bool-cases, inl, inr,
}
use distributed_processing_e.Base.Eq.{◌==◌, string_eq, nat_eq}
use distributed_processing_e.Base.Map.{get, Distinct, keys}
use distributed_processing_e.Dag.{zero_counts, count_edges, link_edges, topo_loop, ready_ids}
use distributed_processing_e.Dag.Queue.{IsQueue, AllDifferent, topo_loop-empties}
use distributed_processing_e.Dag.Counters.{
  Counters, holds, open_edges, children_of-link_edges, count_of-count_edges, count_of-zero_counts,
  zero_counts-Distinct, count_edges-Distinct, positives,
}
use distributed_processing_e.Spec.{DagSpecification}

-- The counter is zero, as the queue starts with it.
abbrev is_ready : String × ℕ → Bool
is_ready entry = entry.1 == 0

not_kept : (L : Counters) (y : String) → get L y ≡ none → holds y (keys (keep is_ready L)) ≡ false
unfolding get
not_kept [] y e = refl
not_kept ((x, v) ∷ L) y e = elim (Bool-cases (x == y)) [
  | inl same ↦ absurd (none-ne-some v (sym (rw same at e)))
  | inr other ↦ ground (arith, other, not_kept L y (rw other at e))
]

ready_zero :
    (L : Counters) (y : String) (k : ℕ)
    → Distinct L
    → holds y (keys (keep is_ready L)) ≡ true
    → get L y ≡ some k
    → k ≡ 0
unfolding get
ready_zero [] y k d held e = cc
ready_zero ((x, v) ∷ L) y k d held e = elim (Bool-cases (x == y)) [
  | inl same ↦
      let gone = not_kept L y (ap (get L) (sym ((string_eq.same_iff x y).0 same)) ∙ d.0) in
      let found = some-injective v k (rw same at e) in ground arith
  | inr other ↦ ready_zero L y k d.1 (ground arith) (rw other at e)
]

ready_different : (L : Counters) → Distinct L → AllDifferent (keys (keep is_ready L))
ready_different [] d = tt
ready_different ((x, v) ∷ L) d = elim (Bool-cases (v == 0)) [
  | inl ready ↦ rw ready (not_kept L x d.0, ready_different L d.1)
  | inr waiting ↦ rw waiting (ready_different L d.1)
]

ready_or_positive : (L : Counters) → length (keep is_ready L) + positives L ≡ length L
unfolding positives
ready_or_positive [] = omega arith
ready_or_positive ((x, v) ∷ L) = ground (arith, ready_or_positive L)

-- The order in which a map is iterated: each entry once.
pub record IsOrder (iter : Counters → Counters) : Type 0 where
  pub same : (m : Counters) → Distinct m → (k : String) → get (iter m) k ≡ get m k
  pub distinct : (m : Counters) → Distinct m → Distinct (iter m)
  pub count : (m : Counters) (p : String × ℕ → Bool) → length (keep p (iter m)) ≡ length (keep p m)

-- The counters and the queue that the loop starts with.
abbrev pub start : DagSpecification → Counters
start d = count_edges d.edges (zero_counts d.nodes [])

start-Distinct : (d : DagSpecification) → Distinct (start d)
start-Distinct d =
    count_edges-Distinct d.edges (zero_counts d.nodes []) (zero_counts-Distinct d.nodes [] tt)

start_counts :
    (d : DagSpecification) (y : String) (k : ℕ)
    → get (start d) y ≡ some k
    → k ≡ open_edges [] d.edges y
unfolding get
start_counts d y k e =
    ap count_found (sym e)
    ∙ count_of-count_edges d.edges (zero_counts d.nodes []) y
    ∙ omega (arith, count_of-zero_counts d.nodes [] (λ y. refl) y)
  where
    count_found : Option ℕ → ℕ
    count_found o = elim o [ none ↦ 0 | some n ↦ n ]

pub start-IsQueue :
    (iter : Counters → Counters) (d : DagSpecification)
    → IsOrder iter
    → IsQueue d.edges [] [] (start d) (ready_ids iter (start d))
start-IsQueue iter d order = record {
  enough = λ y k e. omega (arith, start_counts d y k e);
  queued_zero = λ y k held e.
      ready_zero (iter (start d)) y k (order.distinct (start d) (start-Distinct d)) held
        (order.same (start d) (start-Distinct d) y ∙ e);
  ordered_zero = λ y k held e. cc;
  present = λ y held gone.
      false_not_true (
        sym (not_kept (iter (start d)) y (order.same (start d) (start-Distinct d) y ∙ gone))
        ∙ held);
  different = ready_different (iter (start d)) (order.distinct (start d) (start-Distinct d));
  apart = λ y held. refl;
}

-- The loop of `ordered_nodes` ends: with as many rounds as there are counters, which is what
-- `ordered_ids` gives it, nothing is left in the queue, on every graph, cyclic ones included.
pub topo_loop_ends :
    (iter : Counters → Counters) (d : DagSpecification)
    → IsOrder iter
    → (topo_loop
        (link_edges d.edges [])
        (length (start d))
        (start d, ready_ids iter (start d))
        []).1
      ≡ []
unfolding get
topo_loop_ends iter d order =
    topo_loop-empties d.edges (link_edges d.edges []) (λ id. children_of-link_edges d.edges [] id)
      (length (start d)) (start d) (ready_ids iter (start d)) [] (start-IsQueue iter d order)
      (omega (
        arith,
        length-map (λ (entry : String × ℕ). entry.0) (keep is_ready (iter (start d))),
        order.count (start d) is_ready,
        ready_or_positive (start d),
      ))

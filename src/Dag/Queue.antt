-- ===== src/Dag/Queue.antt =====
-- What the queue loop of `ordered_nodes` of src/common/dag.rs keeps, round after round.
use mathlib.Core.Path.{subst}
use distributed_processing_e.Base.{
  false_not_true, ℕ, zero, suc, ◌+◌, ◌-◌, ◌≤◌, ◌≡◌, ◌≢◌, refl, sym, ap, ◌∙◌, String, true, false,
  none, some, List, [], ◌∷◌, ◌++◌, length, length-append, arith, Bool-cases, Option-cases, inl, inr,
  ◌⊎◌,
}
use distributed_processing_e.Base.Eq.{◌==◌, string_eq, nat_eq}
use distributed_processing_e.Base.Map.{HashMap, get, insert, get-insert}
use distributed_processing_e.Dag.{children_of, lower, lower_all, topo_loop}
use distributed_processing_e.Dag.Counters.{
  Counters, holds, open_edges, occurrences, child_ids, positives, positives-insert, holds-snoc,
  open_edges-snoc,
}
use distributed_processing_e.Spec.{DagEdge}

abbrev pub AllDifferent : List String → Type 0
AllDifferent [] = Unit
AllDifferent (x ∷ xs) = (holds x xs ≡ false) × AllDifferent xs

pub AllDifferent-snoc :
    (xs : List String) (c : String)
    → AllDifferent xs
    → holds c xs ≡ false
    → AllDifferent (xs ++ c ∷ [])
AllDifferent-snoc [] c d h = (refl, tt)
AllDifferent-snoc (x ∷ xs) c d h = (
  ground (arith, holds-snoc x xs c, string_eq.same_iff x c, string_eq.same_iff c x, d.0),
  AllDifferent-snoc xs c d.1 (ground arith),
)

module _ (edges : List DagEdge) where
  -- A counter is at least the number of the edges that are still to be lowered: those from nodes that
  -- are not ordered, and those to the remaining children of the node at hand. What is in the queue or
  -- ordered has counted down, and stands there once.
  pub record IsQueue (ordered remaining : List String) (m : Counters) (queue : List String)
      : Type 0 where
    pub enough :
        (y : String) (k : ℕ)
        → get m y ≡ some k
        → open_edges ordered edges y + occurrences y remaining ≤ k
    pub queued_zero : (y : String) (k : ℕ) → holds y queue ≡ true → get m y ≡ some k → k ≡ 0
    pub ordered_zero : (y : String) (k : ℕ) → holds y ordered ≡ true → get m y ≡ some k → k ≡ 0
    pub present : (y : String) → holds y queue ≡ true → get m y ≢ none
    pub different : AllDifferent queue
    pub apart : (y : String) → holds y queue ≡ true → holds y ordered ≡ false

  abbrev pub weight : Counters × List String → ℕ
  weight (m, queue) = length queue + positives m

  none_not_some : {n : ℕ} → none ≢ some n
  none_not_some e = cc

  some_same : {a b : ℕ} → some a ≡ some b → a ≡ b
  some_same e = cc

  minus_one : (j : ℕ) → suc (suc j) - 1 ≡ suc j
  minus_one j = omega arith

  not_zero : (j : ℕ) → (suc j == 0) ≡ false
  not_zero j = ground arith

  -- What is found after a counter was set.
  get_after :
      (m : Counters) (c : String) (j : ℕ) (y : String) (u : ℕ)
      → get (insert m c j) y ≡ some u
      → (((c == y) ≡ true) × (j ≡ u)) ⊎ (((c == y) ≡ false) × (get m y ≡ some u))
  get_after m c j y u e = elim (Bool-cases (c == y)) [
    | inl same ↦ inl (same, some_same (rw same at (sym (get-insert m c j y) ∙ e)))
    | inr other ↦ inr (other, rw other at (sym (get-insert m c j y) ∙ e))
  ]

  found_or_gone :
      (m : Counters) (c : String) (j : ℕ) (y : String)
      → (c == y) ≡ true
      → get (insert m c j) y ≢ none
  found_or_gone m c j y same gone = none_not_some (sym gone ∙ rw same at (get-insert m c j y))

  still_present :
      (m : Counters) (c : String) (j : ℕ) (y : String)
      → get m y ≢ none
      → get (insert m c j) y ≢ none
  still_present m c j y h gone = elim (Bool-cases (c == y)) [
    | inl same ↦ found_or_gone m c j y same gone
    | inr other ↦ h (sym (rw other at (get-insert m c j y)) ∙ gone)
  ]

  module _ (ordered : List String) (c : String) (rest : List String) (m : Counters)
      (queue : List String) (h : IsQueue ordered (c ∷ rest) m queue) where
    skipped : IsQueue ordered rest m queue
    skipped = record {
      enough = λ y k e. ground (arith, h.enough y k e);
      queued_zero = h.queued_zero;
      ordered_zero = h.ordered_zero;
      present = h.present;
      different = h.different;
      apart = h.apart;
    }

    module _ (j : ℕ) (there : get m c ≡ some (suc j)) where
      left_enough : open_edges ordered edges c + occurrences c rest ≤ j
      left_enough = ground (arith, h.enough c (suc j) there, string_eq.same_iff c c)

      enough_after :
          (y : String) (u : ℕ)
          → get (insert m c j) y ≡ some u
          → open_edges ordered edges y + occurrences y rest ≤ u
      enough_after y u e = elim (get_after m c j y u e) [
        | inl (same, made) ↦
            subst (λ u. open_edges ordered edges y + occurrences y rest ≤ u) made
              (subst (λ y. open_edges ordered edges y + occurrences y rest ≤ j)
                ((string_eq.same_iff c y).0 same) left_enough)
        | inr (other, old) ↦ ground (arith, h.enough y u old)
      ]

      -- The child is not there with a counter above zero.
      not_queued : holds c queue ≡ false
      not_queued = elim (Bool-cases (holds c queue)) [
        | inl held ↦ absurd (omega (arith, h.queued_zero c (suc j) held there))
        | inr free ↦ free
      ]

      not_ordered : holds c ordered ≡ false
      not_ordered = elim (Bool-cases (holds c ordered)) [
        | inl held ↦ absurd (omega (arith, h.ordered_zero c (suc j) held there))
        | inr free ↦ free
      ]

      zero_after :
          (xs : List String)
          → holds c xs ≡ false
          → ((y : String) (k : ℕ) → holds y xs ≡ true → get m y ≡ some k → k ≡ 0)
          → (y : String) (u : ℕ) → holds y xs ≡ true
          → get (insert m c j) y ≡ some u
          → u ≡ 0
      zero_after xs free zeros y u held e = elim (get_after m c j y u e) [
        | inl (same, made) ↦ absurd (
            false_not_true
              (sym free ∙ ap (λ x. holds x xs) ((string_eq.same_iff c y).0 same) ∙ held))
        | inr (other, old) ↦ zeros y u held old
      ]

      lowered : IsQueue ordered rest (insert m c j) queue
      lowered = record {
        enough = enough_after;
        queued_zero = zero_after queue not_queued h.queued_zero;
        ordered_zero = zero_after ordered not_ordered h.ordered_zero;
        present = λ y held. still_present m c j y (h.present y held);
        different = h.different;
        apart = h.apart;
      }

      pushed : j ≡ 0 → IsQueue ordered rest (insert m c j) (queue ++ c ∷ [])
      pushed z = record {
        enough = enough_after;
        queued_zero = λ y u held e. elim (get_after m c j y u e) [
          | inl (same, made) ↦ sym made ∙ z
          | inr (other, old) ↦ h.queued_zero y u (ground (arith, holds-snoc y queue c, held)) old
        ];
        ordered_zero = zero_after ordered not_ordered h.ordered_zero;
        present = λ y held. elim (Bool-cases (c == y)) [
          | inl same ↦ λ gone. found_or_gone m c j y same gone
          | inr other ↦
              still_present m c j y (h.present y (ground (arith, holds-snoc y queue c, held)))
        ];
        different = AllDifferent-snoc queue c h.different not_queued;
        apart = λ y held. elim (Bool-cases (c == y)) [
          | inl same ↦
              ap (λ x. holds x ordered) (sym ((string_eq.same_iff c y).0 same)) ∙ not_ordered
          | inr other ↦ h.apart y (ground (arith, holds-snoc y queue c, held))
        ];
      }

    -- Lowering the next child keeps this, and the weight: a counter that reaches zero joins the
    -- queue.
    lower-IsQueue :
        let s = lower c (m, queue) in IsQueue ordered rest s.0 s.1 × (weight s ≡ weight (m, queue))
    lower-IsQueue = elim (Option-cases (get m c)) [
      | inl absent ↦ rw (absent, lower) (skipped, refl)
      | inr (zero, there) ↦ absurd (ground (arith, h.enough c 0 there, string_eq.same_iff c c))
      | inr (suc zero, there) ↦
          rw (there, lower)
            (
              pushed 0 there refl,
              omega (arith, positives-insert m c 0 there, length-append queue (c ∷ [])),
            )
      | inr (suc (suc j), there) ↦
          rw (there, lower, minus_one j, not_zero j)
            (lowered (suc j) there, ground (arith, positives-insert m c (suc j) there))
    ]

  pub lower_all-IsQueue :
      (ordered rest : List String) (m : Counters) (queue : List String)
      → IsQueue ordered rest m queue
      → (let s = lower_all rest (m, queue) in
          IsQueue ordered [] s.0 s.1 × (weight s ≡ weight (m, queue)))
  unfolding lower_all
  lower_all-IsQueue ordered [] m queue h = (h, refl)
  lower_all-IsQueue ordered (c ∷ rest) m queue h =
      let s = lower c (m, queue) in
      let (h₁, same₁) = lower-IsQueue ordered c rest m queue h in
      let (h₂, same₂) = lower_all-IsQueue ordered rest s.0 s.1 h₁ in (h₂, same₂ ∙ same₁)

  pub popped-IsQueue :
      (id : String) (ordered : List String) (m : Counters) (queue : List String)
      → IsQueue ordered [] m (id ∷ queue)
      → IsQueue (ordered ++ id ∷ []) (child_ids id edges) m queue
  popped-IsQueue id ordered m queue h = record {
    enough = λ y k e.
        ground (arith, open_edges-snoc id ordered edges y (h.apart id held), h.enough y k e);
    queued_zero = λ y k q e. h.queued_zero y k (ground arith) e;
    ordered_zero = λ y k o e. elim (Bool-cases (holds y ordered)) [
      | inl old ↦ h.ordered_zero y k old e
      | inr new ↦ h.queued_zero y k (ground (arith, holds-snoc y ordered id)) e
    ];
    present = λ y q. h.present y (ground arith);
    different = h.different.1;
    apart = λ y q. ground (
      arith,
      holds-snoc y ordered id,
      h.apart y (ground arith),
      h.different.0,
      string_eq.same_iff id y,
    );
  }
    where
      held : holds id (id ∷ queue) ≡ true
      held = ground (arith, string_eq.same_iff id id)

  pub topo_loop-empties :
      (outgoing : HashMap String (List String))
      → ((id : String) → children_of outgoing id ≡ child_ids id edges)
      → (fuel : ℕ) (m : Counters) (queue ordered : List String) → IsQueue ordered [] m queue
      → weight (m, queue) ≤ fuel
      → (topo_loop outgoing fuel (m, queue) ordered).1 ≡ []
  unfolding topo_loop
  topo_loop-empties outgoing links zero m [] ordered h w = refl
  topo_loop-empties outgoing links (suc fuel) m [] ordered h w = refl
  topo_loop-empties outgoing links zero m (id ∷ queue) ordered h w = absurd (omega arith)
  topo_loop-empties outgoing links (suc fuel) m (id ∷ queue) ordered h w =
      let (h', same) =
        lower_all-IsQueue (ordered ++ id ∷ []) (child_ids id edges) m queue
          (popped-IsQueue id ordered m queue h) in
      let s = lower_all (child_ids id edges) (m, queue) in
      ap (λ ids. (topo_loop outgoing fuel (lower_all ids (m, queue)) (ordered ++ id ∷ [])).1)
        (links id)
      ∙ topo_loop-empties outgoing links fuel s.0 s.1 (ordered ++ id ∷ []) h' (omega (arith, same))

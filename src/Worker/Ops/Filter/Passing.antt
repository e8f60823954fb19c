-- ===== src/Worker/Ops/Filter/Passing.antt =====
-- Which records `FilterOp` of src/worker/ops/filter.rs keeps.
use distributed_processing_e.Base.{
  false_not_true, ◌≡◌, ◌≢◌, ◌↔◌, ◌⊎◌, inl, inr, refl, sym, ap, ◌∙◌, ◌&&◌, not, all, map, keep,
  String, Bool, true, false, Option, none, some, List, [], ◌∷◌, arith, All, All-keep, Bool-cases,
  Option-cases,
}
use mathlib.Core.Path.{subst}
use mathlib.Core.Option.{some-injective, none-ne-some}
use distributed_processing_e.Base.Eq.{string_eq}
use distributed_processing_e.Base.Outcome.{ok}
use distributed_processing_e.Worker.Ops.Data.{PartitionData}
use distributed_processing_e.Worker.Ops.Data.Carried.{
  AllCarry, Apart, Makes, frame, each-remake, AllCarry-Exact,
}
use distributed_processing_e.Worker.Ops.Filter.{
  Predicate, always_true, always_false, non_empty, has_field, equals, gt, lt, parse, eval_predicate,
  eval_map, eval_other, has_values, is_null, is_there, number_passes, field_equals, equals_value,
  filtered, filter_partitions, execute,
}
use distributed_processing_e.Worker.Ops.Value.{View, Serde, Std, F64, value_as_f64}
use distributed_processing_e.Worker.Partition.Lines.{IsJson, Exact}
use distributed_processing_e.Worker.Partition.RoundTrip.{Files, sound}

and_left : (a b : Bool) → (a && b) ≡ true → a ≡ true
and_left true b h = refl
and_left false b h = h

and_right : (a b : Bool) → (a && b) ≡ true → b ≡ true
and_right true b h = h
and_right false b h = cc

and_both : (a b : Bool) → a ≡ true → b ≡ true → (a && b) ≡ true
and_both a b h k = ground arith

module _ {V M N : Type 0} (serde : Serde V M N) (std : Std) where
  abbrev NoNulls : List (String × V) → Type 0
  NoNulls es = All (λ e. serde.view e.1 ≢ View.null) es

  -- Texts are equal up to case.
  abbrev EqualTo : V → V → View V M N → View V M N → Type 0
  EqualTo x expected (View.string s) (View.string t) = std.to_lowercase s ≡ std.to_lowercase t
  EqualTo x expected _ _ = serde.same x expected ≡ true

  -- What a predicate asks of an object.
  abbrev Satisfies : M → Predicate V → Type 0
  Satisfies m always_true = Unit
  Satisfies m always_false = ⊥
  Satisfies m non_empty = (serde.entries m ≢ []) × NoNulls (serde.entries m)
  Satisfies m (has_field name) = (x : V) × (serde.get m name ≡ some x)
  Satisfies m (gt name threshold) =
      (x : V) × (n : F64) × (serde.get m name ≡ some x)
      × (value_as_f64 serde x ≡ some n)
      × (std.gt n threshold ≡ true)
  Satisfies m (lt name threshold) =
      (x : V) × (n : F64) × (serde.get m name ≡ some x)
      × (value_as_f64 serde x ≡ some n)
      × (std.lt n threshold ≡ true)
  Satisfies m (equals name expected) =
      (x : V) × (serde.get m name ≡ some x)
      × EqualTo x expected (serde.view x) (serde.view expected)

  is_null_iff : (x : View V M N) → (not (is_null serde std x) ≡ true) ↔ (x ≢ View.null)
  is_null_iff View.null = ((λ e. cc), (λ e. absurd (e refl)))
  is_null_iff (View.bool b) = ((λ e f. cc), (λ e. refl))
  is_null_iff (View.number n) = ((λ e f. cc), (λ e. refl))
  is_null_iff (View.string s) = ((λ e f. cc), (λ e. refl))
  is_null_iff (View.array xs) = ((λ e f. cc), (λ e. refl))
  is_null_iff (View.object m) = ((λ e f. cc), (λ e. refl))

  NoNulls-iff :
      (es : List (String × V))
      → (all (λ e. not (is_null serde std (serde.view e.1))) es ≡ true) ↔ NoNulls es
  NoNulls-iff [] = ((λ e. tt), (λ e. refl))
  NoNulls-iff (e ∷ es) = (
    (λ h.
        ((is_null_iff (serde.view e.1)).0 (and_left _ _ h), (NoNulls-iff es).0 (and_right _ _ h))),
    (λ h. and_both _ _ ((is_null_iff (serde.view e.1)).1 h.0) ((NoNulls-iff es).1 h.1)),
  )

  has_values_iff :
      (es : List (String × V)) → (has_values serde std es ≡ true) ↔ ((es ≢ []) × NoNulls es)
  has_values_iff [] = ((λ h. cc), (λ h. absurd (h.0 refl)))
  has_values_iff (e ∷ es) =
      ((λ h. ((λ f. cc), (NoNulls-iff (e ∷ es)).0 h)), (λ h. (NoNulls-iff (e ∷ es)).1 h.1))

  is_there_iff : (o : Option V) → (is_there serde std o ≡ true) ↔ ((x : V) × (o ≡ some x))
  is_there_iff none = ((λ h. cc), (λ h. cc (h.1)))
  is_there_iff (some x) = ((λ h. (x, refl)), (λ h. refl))

  number_passes_iff :
      (test : F64 → F64 → Bool) (o : Option V) (threshold : F64)
      → (number_passes serde std test o threshold ≡ true) ↔ (
          (x : V) × (n : F64) × (o ≡ some x)
          × (value_as_f64 serde x ≡ some n)
          × (test n threshold ≡ true))
  number_passes_iff test none threshold = ((λ h. cc), (λ h. cc (h.2)))
  number_passes_iff test (some x) threshold = elim (Option-cases (value_as_f64 serde x)) [
    | inl absent ↦ (
      (λ h. absurd (false_not_true (rw (absent, number_passes) at h))),
      (λ h. absurd (
          none-ne-some h.1
            (sym absent ∙ ap (value_as_f64 serde) (some-injective x h.0 h.2) ∙ h.3))),
    )
    | inr (n, found) ↦ (
      (λ h. (x, n, refl, found, rw (found, number_passes) at h)),
      (λ h.
          let same =
            some-injective n h.1
              (sym found ∙ ap (value_as_f64 serde) (some-injective x h.0 h.2) ∙ h.3) in
          rw (found, number_passes) (ap (λ k. test k threshold) same ∙ h.4)),
    )
  ]

  equals_value_iff :
      (x expected : V) (a b : View V M N)
      → (equals_value serde std x expected a b ≡ true) ↔ EqualTo x expected a b
  equals_value_iff x expected (View.string s) (View.string t) =
      string_eq.same_iff (std.to_lowercase s) (std.to_lowercase t)
  equals_value_iff x expected (View.string s) View.null = ((λ h. h), (λ h. h))
  equals_value_iff x expected (View.string s) (View.bool b) = ((λ h. h), (λ h. h))
  equals_value_iff x expected (View.string s) (View.number n) = ((λ h. h), (λ h. h))
  equals_value_iff x expected (View.string s) (View.array b) = ((λ h. h), (λ h. h))
  equals_value_iff x expected (View.string s) (View.object b) = ((λ h. h), (λ h. h))
  equals_value_iff x expected View.null b = ((λ h. h), (λ h. h))
  equals_value_iff x expected (View.bool a) b = ((λ h. h), (λ h. h))
  equals_value_iff x expected (View.number a) b = ((λ h. h), (λ h. h))
  equals_value_iff x expected (View.array a) b = ((λ h. h), (λ h. h))
  equals_value_iff x expected (View.object a) b = ((λ h. h), (λ h. h))

  field_equals_iff :
      (o : Option V) (expected : V)
      → (field_equals serde std o expected ≡ true)
        ↔ ((x : V) × (o ≡ some x) × EqualTo x expected (serde.view x) (serde.view expected))
  field_equals_iff none expected = ((λ h. cc), (λ h. cc (h.1)))
  field_equals_iff (some x) expected = (
    (λ h. (x, refl, (equals_value_iff x expected (serde.view x) (serde.view expected)).0 h)),
    (λ h. (equals_value_iff x expected (serde.view x) (serde.view expected)).1 (
        subst (λ y. EqualTo y expected (serde.view y) (serde.view expected))
          (sym (some-injective x h.0 h.1)) h.2)),
  )

  eval_map_iff :
      (m : M) (pred : Predicate V) → (eval_map serde std m pred ≡ true) ↔ Satisfies m pred
  eval_map_iff m always_true = ((λ h. tt), (λ h. refl))
  eval_map_iff m always_false = ((λ h. cc), (λ h. absurd h))
  eval_map_iff m non_empty = has_values_iff (serde.entries m)
  eval_map_iff m (has_field name) = is_there_iff (serde.get m name)
  eval_map_iff m (equals name expected) = field_equals_iff (serde.get m name) expected
  eval_map_iff m (gt name threshold) = number_passes_iff std.gt (serde.get m name) threshold
  eval_map_iff m (lt name threshold) = number_passes_iff std.lt (serde.get m name) threshold

  abbrev OtherPasses : Predicate V → Type 0
  OtherPasses always_true = Unit
  OtherPasses always_false = ⊥
  OtherPasses non_empty = ⊥
  OtherPasses (has_field name) = ⊥
  OtherPasses (equals name expected) = ⊥
  OtherPasses (gt name threshold) = ⊥
  OtherPasses (lt name threshold) = ⊥

  -- Of a value that is no object only the constant predicate holds.
  abbrev pub Passes : View V M N → Predicate V → Type 0
  Passes (View.object m) pred = Satisfies m pred
  Passes _ pred = OtherPasses pred

  eval_other_iff : (pred : Predicate V) → (eval_other serde std pred ≡ true) ↔ OtherPasses pred
  eval_other_iff always_true = ((λ h. tt), (λ h. refl))
  eval_other_iff always_false = ((λ h. cc), (λ h. absurd h))
  eval_other_iff non_empty = ((λ h. cc), (λ h. absurd h))
  eval_other_iff (has_field name) = ((λ h. cc), (λ h. absurd h))
  eval_other_iff (equals name expected) = ((λ h. cc), (λ h. absurd h))
  eval_other_iff (gt name threshold) = ((λ h. cc), (λ h. absurd h))
  eval_other_iff (lt name threshold) = ((λ h. cc), (λ h. absurd h))

  eval_view_iff :
      (x : View V M N) (pred : Predicate V)
      → ((elim x [ View.object m ↦ eval_map serde std m pred | _ ↦ eval_other serde std pred ])
          ≡ true)
        ↔ Passes x pred
  eval_view_iff (View.object m) pred = eval_map_iff m pred
  eval_view_iff View.null pred = eval_other_iff pred
  eval_view_iff (View.bool b) pred = eval_other_iff pred
  eval_view_iff (View.number n) pred = eval_other_iff pred
  eval_view_iff (View.string s) pred = eval_other_iff pred
  eval_view_iff (View.array xs) pred = eval_other_iff pred

  eval_predicate_iff :
      (v : V) (pred : Predicate V)
      → (eval_predicate serde std v pred ≡ true) ↔ Passes (serde.view v) pred
  unfolding eval_predicate
  eval_predicate_iff v pred = eval_view_iff (serde.view v) pred

  -- The second list has those values of the first one that pass, in order, and no others.
  abbrev pub Selects : Predicate V → List V → List V → Type 0
  Selects pred [] ws = ws ≡ []
  Selects pred (v ∷ vs) ws =
      (Passes (serde.view v) pred × ((ws' : List V) × (ws ≡ v ∷ ws') × Selects pred vs ws'))
      ⊎ ((¬ Passes (serde.view v) pred) × Selects pred vs ws)

  keep-Selects :
      (pred : Predicate V) (vs : List V)
      → Selects pred vs (keep (λ r. eval_predicate serde std r pred) vs)
  keep-Selects pred [] = refl
  keep-Selects pred (v ∷ vs) = elim (Bool-cases (eval_predicate serde std v pred)) [
    | inl passes ↦
        rw passes (inl ((eval_predicate_iff v pred).0 passes, (_, refl, keep-Selects pred vs)))
    | inr fails ↦ rw fails (
        inr (
          (λ passes. false_not_true (sym fails ∙ (eval_predicate_iff v pred).1 passes)),
          keep-Selects pred vs,
        ))
  ]

  abbrev pub AllSelect : Predicate V → List (List V) → List (List V) → Type 0
  AllSelect pred [] [] = Unit
  AllSelect pred [] (ws ∷ wss) = ⊥
  AllSelect pred (vs ∷ vss) [] = ⊥
  AllSelect pred (vs ∷ vss) (ws ∷ wss) = Selects pred vs ws × AllSelect pred vss wss

  abbrev kept : Predicate V → List (List V) → List (List V)
  kept pred = map (keep (λ r. eval_predicate serde std r pred))

  kept-AllSelect : (pred : Predicate V) (vss : List (List V)) → AllSelect pred vss (kept pred vss)
  kept-AllSelect pred [] = tt
  kept-AllSelect pred (vs ∷ vss) = (keep-Selects pred vs, kept-AllSelect pred vss)

  kept-Makes :
      (pred : Predicate V) (vss : List (List V))
      → Makes (filtered serde std pred) vss (kept pred vss)
  kept-Makes pred [] = tt
  kept-Makes pred (vs ∷ vss) = (refl, kept-Makes pred vss)

  kept-Exact :
      (pred : Predicate V) (vss : List (List V))
      → All (All (Exact serde.json)) vss
      → All (All (Exact serde.json)) (kept pred vss)
  kept-Exact pred [] h = tt
  kept-Exact pred (vs ∷ vss) h = (All-keep (Exact serde.json) _ vs h.0, kept-Exact pred vss h.1)

  -- While the disk does not fail, the partitions spill to different files, and their records are read
  -- back from JSON as they were written: with a predicate that can
  -- be read the filter succeeds, and each partition keeps its number, limit and spill path, and holds
  -- those of its records that pass the predicate, in order, and no others.
  pub execute-AllSelect :
      IsJson serde.json
      → (predicate : String) (pred : Predicate V) → parse serde std predicate ≡ ok pred
      → (ps : List (PartitionData V)) (files : Files) (vss : List (List V)) → Apart serde.json ps
      → AllCarry serde.json ps files vss
      → (ps' : List (PartitionData V)) × (files' : Files) × (wss : List (List V)) × (execute serde
            std predicate ps
            (sound files)
          ≡ (ok ps', sound files'))
        × AllCarry serde.json ps' files' wss
        × AllSelect pred vss wss
        × (map frame ps' ≡ map frame ps)
  unfolding execute
  execute-AllSelect laws predicate pred reads ps files vss apart h =
      let (ps', files', runs, h', frames, others) =
        each-remake serde.json laws (filtered serde std pred) ps files vss (kept pred vss)
          (kept-Makes pred vss) (kept-Exact pred vss (AllCarry-Exact serde.json ps files vss h))
          apart h in
      (
        ps',
        files',
        kept pred vss,
        ap (λ p. filter_partitions serde std ps p (sound files)) reads ∙ runs,
        h',
        kept-AllSelect pred vss,
        frames,
      )

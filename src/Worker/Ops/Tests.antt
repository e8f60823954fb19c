-- ===== src/Worker/Ops/Tests.antt =====
-- The operators' theorems at small inputs.
use distributed_processing_e.Base.{
  ◌<◌, ℕ, ◌%◌, if◌then◌else◌, String, false_not_true, none, true, ◌≡◌, ◌≢◌, refl, eqb, keep, map,
  List, [], ◌∷◌, arith, inl, inr,
}
use distributed_processing_e.Base.Eq.{string_eq}
use distributed_processing_e.Base.Map.{HashMap, get}
use distributed_processing_e.Base.Outcome.{ok}
use distributed_processing_e.Base.Range.{range}
use distributed_processing_e.Worker.Ops.Data.{PartitionData}
use distributed_processing_e.Worker.Ops.Data.Carried.{AllCarry, Carries, frame}
use distributed_processing_e.Worker.Ops.Filter
use distributed_processing_e.Worker.Ops.Filter.{equals}
use distributed_processing_e.Worker.Ops.Filter.Passing.{AllSelect, execute-AllSelect}
use distributed_processing_e.Spec.{JoinType}
use distributed_processing_e.Worker.Ops.Join
use distributed_processing_e.Worker.Ops.Join.{extract_key}
use distributed_processing_e.Worker.Ops.Join.Executed.{execute-relational_join}
use distributed_processing_e.Worker.Ops.Join.Relational.{relational_join}
use distributed_processing_e.Worker.Ops.Join.Rows.{AllKeyed}
use distributed_processing_e.Worker.Ops.MapOp
use distributed_processing_e.Worker.Ops.MapOp.{apply_fn, apply_record}
use distributed_processing_e.Worker.Ops.MapOp.Identity.{execute-identity}
use distributed_processing_e.Worker.Ops.Read.{read_records, array_records}
use distributed_processing_e.Worker.Ops.Read.Dealing.{deal, with_ok, read_csv_deals}
use distributed_processing_e.Worker.Ops.Reduce.{ReducerKind, parse, group_record, reduce_by_key}
use distributed_processing_e.Worker.Ops.Reduce.Grouping.{IsGrouping, reduce_by_key-IsGrouping}
use distributed_processing_e.Worker.Ops.Shuffle
use distributed_processing_e.Worker.Ops.Shuffle.Scattered.{numbered, execute_scatters}
use distributed_processing_e.Worker.Samples.{
  serde, std, json-IsJson, sample_reads, input, nested, nested-IsSerde,
}
use distributed_processing_e.Worker.Partition.RoundTrip.{Files, sound}

input-AllCarry : AllCarry serde.json (input ∷ []) [] ((1 ∷ 2 ∷ 3 ∷ []) ∷ [])
unfolding get
input-AllCarry = (
  record {
    stored = [];
    split = refl;
    exact = sample_reads (1 ∷ 2 ∷ 3 ∷ []);
    file = inl (refl, refl, refl);
    bounded = inr (omega arith);
    counted = omega arith;
  },
  tt,
)

equals_a : Filter.parse serde std "equals:k=a" ≡ ok (equals "k" 100)
unfolding Filter.parse
equals_a = refl

execute-AllSelect_example :
    (ps' : List (PartitionData ℕ)) × (files' : Files) × (wss : List (List ℕ)) × (Filter.execute
        serde std "equals:k=a"
        (input ∷ [])
        (sound [])
      ≡ (ok ps', sound files'))
    × AllCarry serde.json ps' files' wss
    × AllSelect serde std (equals "k" 100) ((1 ∷ 2 ∷ 3 ∷ []) ∷ []) wss
    × (map frame ps' ≡ map frame (input ∷ []))
execute-AllSelect_example =
    execute-AllSelect serde std json-IsJson "equals:k=a" (equals "k" 100) equals_a (input ∷ []) []
      ((1 ∷ 2 ∷ 3 ∷ []) ∷ []) (tt, tt) input-AllCarry

two_not_zero : ◌≢◌ {A = ℕ} 2 0
two_not_zero e = cc

execute_scatters_example :
    (ps' : List (PartitionData ℕ)) × (files' : Files) × (Shuffle.execute serde std "k" 2
        (input ∷ [])
        (sound [])
      ≡ (ok ps', sound files'))
    × AllCarry serde.json ps' files' (
        map
          (λ i. keep (λ r. eqb (Shuffle.compute_bucket serde std r "k" 2) i) (1 ∷ 2 ∷ 3 ∷ []))
          (range 0 2))
    × (map frame ps' ≡ map (numbered serde std json-IsJson 4 "/tmp") (range 0 2))
    × ((r : ℕ) → Shuffle.compute_bucket serde std r "k" 2 < 2)
unfolding get
execute_scatters_example =
    execute_scatters serde std json-IsJson "k" 2 (input ∷ []) [] ((1 ∷ 2 ∷ 3 ∷ []) ∷ [])
      two_not_zero (λ a b relative_a relative_b e. e) (λ i. refl) (tt, tt) input-AllCarry

abbrev in_memory : ℕ → String → List ℕ → PartitionData ℕ
in_memory id path records = record {
  partition_id = id;
  cache = record {
    in_memory = records;
    spilled_file = none;
    in_memory_bytes = 2;
    spilled_bytes = 0;
    limit_bytes = 4;
    spill_path = path;
    record_count = 2;
  };
}

abbrev odd_rows : PartitionData ℕ
odd_rows = in_memory 3 "spill-3.bin" (1 ∷ 3 ∷ [])

abbrev two_rows : PartitionData ℕ
two_rows = in_memory 2 "spill-2.bin" (4 ∷ 5 ∷ [])

odd_rows-Carries : Carries serde.json odd_rows [] (1 ∷ 3 ∷ [])
unfolding get
odd_rows-Carries = record {
  stored = [];
  split = refl;
  exact = sample_reads (1 ∷ 3 ∷ []);
  file = inl (refl, refl, refl);
  bounded = inr (omega arith);
  counted = omega arith;
}

two_rows-Carries : Carries serde.json two_rows [] (4 ∷ 5 ∷ [])
unfolding get
two_rows-Carries = record {
  stored = [];
  split = refl;
  exact = sample_reads (4 ∷ 5 ∷ []);
  file = inl (refl, refl, refl);
  bounded = inr (omega arith);
  counted = omega arith;
}

odd_rows-AllKeyed : AllKeyed serde "k" (1 ∷ 3 ∷ []) (("b", 1) ∷ ("b", 3) ∷ [])
unfolding extract_key
odd_rows-AllKeyed = (refl, (refl, tt))

two_rows-AllKeyed : AllKeyed serde "k" (4 ∷ 5 ∷ []) (("a", 4) ∷ ("b", 5) ∷ [])
unfolding extract_key
two_rows-AllKeyed = (refl, (refl, tt))

paths_apart : ◌≢◌ {A = String} "spill-3.bin" "spill-2.bin"
paths_apart e = false_not_true ((string_eq.same_iff "spill-3.bin" "spill-2.bin").1 e)

eqb_self : (n : ℕ) → eqb n n ≡ true
eqb_self n = ground arith

execute-relational_join_example :
    (p : PartitionData ℕ) × (files' : Files) × (Join.execute serde "k" JoinType.full
        (odd_rows ∷ two_rows ∷ [])
        (sound [])
      ≡ (ok (p ∷ []), sound files'))
    × Carries serde.json p files'
        (relational_join serde JoinType.full (("b", 1) ∷ ("b", 3) ∷ []) (("a", 4) ∷ ("b", 5) ∷ []))
    × (frame p ≡ (2, 4, "spill-3.bin"))
execute-relational_join_example =
    execute-relational_join serde json-IsJson "k" JoinType.full odd_rows two_rows [] (1 ∷ 3 ∷ [])
      (4 ∷ 5 ∷ []) (("b", 1) ∷ ("b", 3) ∷ []) (("a", 4) ∷ ("b", 5) ∷ []) eqb_self paths_apart
      odd_rows-Carries two_rows-Carries odd_rows-AllKeyed two_rows-AllKeyed
      (λ kept. (tt, ((refl, tt), tt)))
      (sample_reads
        (relational_join serde JoinType.full (("b", 1) ∷ ("b", 3) ∷ []) (("a", 4) ∷ ("b", 5) ∷ [])))

read_csv_deals_example :
    (read_records serde std 2 1 "csv" []
      ≡ with_ok (deal 2 1 0) (read_records serde std 1 0 "csv" []))
    × (array_records serde std 2 1 0 (1 ∷ 2 ∷ 3 ∷ [])
        ≡ deal 2 1 0 (array_records serde std 1 0 0 (1 ∷ 2 ∷ 3 ∷ [])))
read_csv_deals_example = read_csv_deals serde std 2 1 (omega arith) [] (1 ∷ 2 ∷ 3 ∷ [])

abbrev odd_or_even : ℕ → String
odd_or_even n = if eqb (n % 2) 0 then "a" else "b"

count_kind : parse "count" ≡ ok ReducerKind.count
unfolding parse
count_kind = refl

reduce_by_key_example :
    (groups : HashMap String (List ℕ)) × (p' : PartitionData ℕ) × (files' : Files) × (reduce_by_key
        serde std
        (λ m. m)
        "k"
        "count"
        (input ∷ [])
        (sound [])
      ≡ (ok (p' ∷ []), sound files'))
    × Carries serde.json p' files'
        (map (group_record serde std "k" "count" ReducerKind.count) groups)
    × IsGrouping serde std "k" odd_or_even groups (1 ∷ 2 ∷ 3 ∷ [])
    × (frame p' ≡ frame input)
reduce_by_key_example =
    reduce_by_key-IsGrouping serde std "k" odd_or_even json-IsJson (λ m. m) "count"
      ReducerKind.count input [] [] ((1 ∷ 2 ∷ 3 ∷ []) ∷ []) (λ m once. (once, λ k. refl)) count_kind
      (tt, tt) input-AllCarry (refl, (refl, (refl, tt)))
      (λ k some_there.
        (sample_reads (group_record serde std "k" "count" ReducerKind.count (k, _) ∷ [])).0)

execute-identity_example :
    (ps' : List (PartitionData ℕ)) × (files' : Files) × (MapOp.execute nested std "identity"
        (input ∷ [])
        (sound [])
      ≡ (ok ps', sound files'))
    × AllCarry nested.json ps' files' ((1 ∷ 2 ∷ 3 ∷ []) ∷ [])
    × (map frame ps' ≡ map frame (input ∷ []))
execute-identity_example =
    execute-identity nested std nested-IsSerde json-IsJson (input ∷ []) [] ((1 ∷ 2 ∷ 3 ∷ []) ∷ [])
      (tt, tt) input-AllCarry

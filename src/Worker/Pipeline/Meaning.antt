-- ===== src/Worker/Pipeline/Meaning.antt =====
-- What the operators of src/worker/ops make of the records of one partition, and chains of them.
use mathlib.Core.Path.{subst}
use mathlib.Core.List.{append-nil}
use distributed_processing_e.Base.{
  All, ℕ, suc, ◌≡◌, refl, ap, ◌∙◌, String, List, [], ◌∷◌, ◌++◌, map,
}
use distributed_processing_e.Base.Eq.{string_eq}
use distributed_processing_e.Base.Map.{HashMap}
use distributed_processing_e.Base.Outcome.{Outcome, ok, err, map_all, ◌>>=◌}
use distributed_processing_e.Types.{StageTrace}
use distributed_processing_e.Worker.Action.{each}
use distributed_processing_e.Worker.Ops.{Operator, execute}
use distributed_processing_e.Worker.Ops.Data.{PartitionData, limit_bytes, spill_path, remake}
use distributed_processing_e.Worker.Ops.Data.Carried.{
  Carries, frame, into_parts-Carries, from_records-Carries, remake-Carries,
}
use distributed_processing_e.Worker.Ops.Filter
use distributed_processing_e.Worker.Ops.Filter.{filtered, filter_partitions}
use distributed_processing_e.Worker.Ops.FlatMap
use distributed_processing_e.Worker.Ops.FlatMap.{expand}
use distributed_processing_e.Worker.Ops.MapOp
use distributed_processing_e.Worker.Ops.MapOp.{apply_record}
use distributed_processing_e.Worker.Ops.Reduce
use distributed_processing_e.Worker.Ops.Reduce.{
  apply_reducer, or_null, gather, reduce_partitions, reduce, ReducerKind, reduce_groups,
  reduce_by_key, group_records, group_record, group_partitions, unsupported,
}
use distributed_processing_e.Worker.Partition.Lines.{IsJson, Exact}
use distributed_processing_e.Worker.Partition.RoundTrip.{Files, sound}
use distributed_processing_e.Worker.Pipeline.{Engine, stage_trace}
use distributed_processing_e.Worker.Pipeline.Chain.{run_chain}

-- Where the first of two steps and the second give a result.
bind_ok :
    {A B : Type 0} (o : Outcome A) (f : A → Outcome B) (b : B)
    → (o >>= f) ≡ ok b
    → (a : A) × (o ≡ ok a) × (f a ≡ ok b)
bind_ok (ok a) f b e = (a, refl, e)
bind_ok (err m) f b e = cc

ok_inj : {A : Type 0} {a b : A} → ok a ≡ ok b → a ≡ b
ok_inj e = cc

module _ {V M N : Type 0} (eng : Engine V M N) where
  -- The records that an operator makes of the records of its only partition. The readers of files, the
  -- join of two inputs and the shuffle are no functions of that kind.
  abbrev pub meaning : Operator → List V → Outcome (List V)
  meaning (Operator.map func) records = map_all (apply_record eng.serde eng.std func) records
  meaning (Operator.filter predicate) records =
      Filter.parse eng.serde eng.std predicate >>= λ pred. filtered eng.serde eng.std pred records
  meaning (Operator.flat_map func) records = expand eng.serde func records
  meaning (Operator.reduce reducer) records = Reduce.parse reducer >>= λ kind.
      ok (or_null eng.serde eng.std (apply_reducer eng.serde eng.std kind records) ∷ [])
  meaning (Operator.reduce_by_key key reducer) records = do
    kind ← unsupported eng.serde eng.std reducer (Reduce.parse reducer)
    grouped ← group_records eng.serde eng.std key records []
    ok (map (group_record eng.serde eng.std key reducer kind) (eng.iter grouped))
  meaning _ records = err "not a function of one partition"

  abbrev pub meanings : List Operator → List V → Outcome (List V)
  meanings [] records = ok records
  meanings (op ∷ operators) records = meaning op records >>= meanings operators

  -- The records, and those that the operators make of them one after another, are read back from JSON as
  -- they were written.
  abbrev pub ReadBack : List Operator → List V → Type 0
  ReadBack [] records = All (Exact eng.serde.json) records
  ReadBack (op ∷ operators) records =
      All (Exact eng.serde.json) records
      × ((made : List V) → meaning op records ≡ ok made → ReadBack operators made)

  pub ReadBack-Exact :
      (operators : List Operator) (records : List V)
      → ReadBack operators records
      → All (Exact eng.serde.json) records
  ReadBack-Exact [] records h = h
  ReadBack-Exact (op ∷ operators) records h = h.0

  module _ (laws : IsJson eng.serde.json) where
    -- An operator runs on one partition.
    abbrev pub Runs : Operator → PartitionData V → Files → List V → Type 0
    Runs op p files ws =
        (p' : PartitionData V) × (files' : Files) × (execute eng.serde eng.std eng.iter op (p ∷ [])
            (sound files)
          ≡ (ok (p' ∷ []), sound files'))
        × Carries eng.serde.json p' files' ws
        × (frame p' ≡ frame p)

    remake_one :
        (f : List V → Outcome (List V)) (p : PartitionData V) (files : Files) (vs ws : List V)
        → f vs ≡ ok ws
        → All (Exact eng.serde.json) ws
        → Carries eng.serde.json p files vs
        → (p' : PartitionData V) × (files' : Files) × (each
              (remake eng.serde.json f)
              (p ∷ [])
              (sound files)
            ≡ (ok (p' ∷ []), sound files'))
          × Carries eng.serde.json p' files' ws
          × (frame p' ≡ frame p)
    unfolding each
    remake_one f p files vs ws made reads h =
        let (p', files', runs, h', same, others) =
          remake-Carries eng.serde.json laws f p files vs ws made reads h in
        (p', files', rw runs refl, h', same)

    reduce_one :
        (kind : ReducerKind) (p : PartitionData V) (files : Files) (vs ws : List V)
        → (or_null eng.serde eng.std (apply_reducer eng.serde eng.std kind vs) ∷ []) ≡ ws
        → All (Exact eng.serde.json) ws
        → Carries eng.serde.json p files vs
        → (p' : PartitionData V) × (files' : Files) × (reduce_partitions eng.serde eng.std
              (p ∷ [])
              kind
              (sound files)
            ≡ (ok (p' ∷ []), sound files'))
          × Carries eng.serde.json p' files' ws
          × (frame p' ≡ frame p)
    unfolding gather
    reduce_one kind p files vs ws made reads h =
        let (files₁, taken, gone, others) = into_parts-Carries eng.serde.json laws p files vs h in
        let (p', files₂, put, h', same, _) =
          from_records-Carries eng.serde.json laws p.partition_id (limit_bytes p) (spill_path p) ws
            files₁ reads gone in
        (p', files₂, rw (taken, append-nil vs, made, put) refl, h', same)

    reduce_groups_one :
        (key reducer : String) (kind : ReducerKind) (p : PartitionData V) (files : Files)
        (vs ws : List V) (m : HashMap String (List V))
        → group_records eng.serde eng.std key vs [] ≡ ok m
        → map (group_record eng.serde eng.std key reducer kind) (eng.iter m) ≡ ws
        → All (Exact eng.serde.json) ws
        → Carries eng.serde.json p files vs
        → (p' : PartitionData V) × (files' : Files) × (reduce_groups eng.serde eng.std eng.iter key
              reducer kind
              (p ∷ [])
              (sound files)
            ≡ (ok (p' ∷ []), sound files'))
          × Carries eng.serde.json p' files' ws
          × (frame p' ≡ frame p)
    unfolding group_partitions
    reduce_groups_one key reducer kind p files vs ws m grouped made reads h =
        let (files₁, taken, gone, others) = into_parts-Carries eng.serde.json laws p files vs h in
        let (p', files₂, put, h', same, _) =
          from_records-Carries eng.serde.json laws p.partition_id (limit_bytes p) (spill_path p) ws
            files₁ reads gone in
        (p', files₂, rw (taken, grouped, made, put) refl, h', same)

    execute-meaning :
        (op : Operator) (p : PartitionData V) (files : Files) (vs ws : List V)
        → meaning op vs ≡ ok ws
        → All (Exact eng.serde.json) ws
        → Carries eng.serde.json p files vs
        → Runs op p files ws
    unfolding execute MapOp.execute Filter.execute FlatMap.execute reduce reduce_by_key
    execute-meaning (Operator.map func) p files vs ws made reads h =
        remake_one (map_all (apply_record eng.serde eng.std func)) p files vs ws made reads h
    execute-meaning (Operator.flat_map func) p files vs ws made reads h =
        remake_one (expand eng.serde func) p files vs ws made reads h
    execute-meaning (Operator.filter predicate) p files vs ws made reads h =
        let (pred, parsed, kept) = bind_ok (Filter.parse eng.serde eng.std predicate) _ ws made in
        let (p', files', runs, h', same) =
          remake_one (filtered eng.serde eng.std pred) p files vs ws kept reads h in
        (
          p',
          files',
          ap (λ o. filter_partitions eng.serde eng.std (p ∷ []) o (sound files)) parsed ∙ runs,
          h',
          same,
        )
    execute-meaning (Operator.reduce reducer) p files vs ws made reads h =
        let (kind, parsed, reduced) = bind_ok (Reduce.parse reducer) _ ws made in
        let (p', files', runs, h', same) = reduce_one kind p files vs ws (ok_inj reduced) reads h in
        (p', files', rw parsed runs, h', same)
    execute-meaning (Operator.read op) p files vs ws made reads h = cc
    execute-meaning (Operator.reduce_by_key key reducer) p files vs ws made reads h =
        let (kind, parsed, rest) =
          bind_ok (unsupported eng.serde eng.std reducer (Reduce.parse reducer)) _ ws made in
        let (m, grouped, put) = bind_ok (group_records eng.serde eng.std key vs []) _ ws rest in
        let (p', files', runs, h', same) =
          reduce_groups_one key reducer kind p files vs ws m grouped (ok_inj put) reads h in
        (p', files', rw parsed runs, h', same)
    execute-meaning (Operator.join key join_type) p files vs ws made reads h = cc
    execute-meaning (Operator.shuffle key total) p files vs ws made reads h = cc

    -- A chain of operators on one partition gives one partition, with the same number, limit and
    -- path, of the records that the operators make one after another.
    pub run_chain-meanings :
        (ids : List String) (edges : List (List String)) (partition_id limit : ℕ) (spill : String)
        (idx : ℕ) (operators : List Operator) (p : PartitionData V) (files : Files)
        (stages : List StageTrace) (vs ws : List V)
        → meanings operators vs ≡ ok ws
        → ReadBack operators vs
        → Carries eng.serde.json p files vs
        → (p' : PartitionData V) × (files' : Files) × (stages' : List StageTrace) × (run_chain eng
              ids edges partition_id limit spill idx operators
              (p ∷ [])
              stages
              (sound files)
            ≡ (ok (p' ∷ [], stages'), sound files'))
          × Carries eng.serde.json p' files' ws
          × (frame p' ≡ frame p)
    run_chain-meanings ids edges partition_id limit spill idx [] p files stages vs ws made reads h =
        (p, files, stages, refl, subst (Carries eng.serde.json p files) (ok_inj made) h, refl)
    run_chain-meanings ids edges partition_id limit spill idx (op ∷ operators) p files stages vs ws
          made reads h =
        let (us, now, later) = bind_ok (meaning op vs) (meanings operators) ws made in
        let (p₁, files₁, runs, h₁, same₁) =
          execute-meaning op p files vs us now (ReadBack-Exact operators us (reads.1 us now)) h in
        let (p₂, files₂, stages₂, rest, h₂, same₂) =
          run_chain-meanings ids edges partition_id limit spill (suc idx) operators p₁ files₁
            (stages ++ stage_trace eng ids edges partition_id limit spill idx (p₁ ∷ []) ∷ []) us ws
            later (reads.1 us now) h₁ in
        (p₂, files₂, stages₂, rw runs rest, h₂, same₂ ∙ same₁)

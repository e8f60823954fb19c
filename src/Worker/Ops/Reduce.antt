-- ===== src/Worker/Ops/Reduce.antt =====
-- `ReduceOp` and `ReduceByKeyOp`: src/worker/ops/reduce.rs. The order in which the map of groups is
-- iterated is a parameter.
pub mod Grouping
use Prim.Native.String.{◌++◌ as append}
use distributed_processing_e.Base.{
  ℕ, zero, suc, length, map, String, Option, none, some, List, [], ◌∷◌, ◌++◌, if◌then◌else◌,
}
use distributed_processing_e.Base.Eq.{◌==◌, string_eq}
use distributed_processing_e.Base.Map.{HashMap, get, insert}
use distributed_processing_e.Base.Outcome.{Outcome, ok, err}
use distributed_processing_e.Base.Text.{split_once, first_part, second_part}
use distributed_processing_e.Worker.Action.{Action, pure, lift, ◌>>=◌}
use distributed_processing_e.Worker.Ops.Data.{
  PartitionData, limit_bytes, spill_path, from_records, into_parts,
}
use distributed_processing_e.Worker.Ops.Value.{
  View, Serde, Std, F64, value_as_f64, as_object, as_str, field,
}

pub data ReducerKind : Type 0 where
  sum min max : Option String → ReducerKind
  count collect : ReducerKind

abbrev parse_op : String → String → Option String → Outcome ReducerKind
parse_op raw op name =
    if op == "sum"
    then ok (sum name)
    else if op == "min"
    then ok (min name)
    else if op == "max"
    then ok (max name)
    else err (append "reduce: unknown reducer '" (append raw "'"))

unfoldable pub parse : String → Outcome ReducerKind
unfolding split_once
parse raw =
    if raw == "count"
    then ok count
    else if raw == "collect"
    then ok collect
    else let parts = split_once b':' raw in parse_op raw (first_part raw parts) (second_part parts)

abbrev named : String → Option String → String
named op none = op
named op (some name) = append op (append "_" name)

module _ {V M N : Type 0} (serde : Serde V M N) (std : Std) where
  -- A number itself, or the number in a field of an object.
  abbrev extract_from : View V M N → Option String → Option F64
  extract_from (View.number n) none = serde.as_f64 n
  extract_from (View.object m) (some f) = elim (serde.get m f) [
    | none ↦ none
    | some v ↦ value_as_f64 serde v
  ]
  extract_from _ _ = none

  abbrev extract_number : V → Option String → Option F64
  extract_number record_value name = extract_from (serde.view record_value) name

  abbrev fold_step : (F64 → F64 → F64) → Option F64 → F64 × ℕ → F64 × ℕ
  fold_step f none (acc, n) = (acc, n)
  fold_step f (some x) (acc, zero) = (x, 1)
  fold_step f (some x) (acc, suc n) = (f acc x, suc (suc n))

  -- The loop, with what is folded so far and how many numbers were met.
  unfoldable pub fold_numeric : (F64 → F64 → F64) → Option String → List V → F64 × ℕ → F64 × ℕ
  fold_numeric f name [] s = s
  fold_numeric f name (r ∷ records) s =
      fold_numeric f name records (fold_step f (extract_number r name) s)

  abbrev single_kv : String → V → M
  single_kv key value = serde.insert serde.new_map key value

  abbrev or_zero : Option N → N
  or_zero none = serde.of_i64 0
  or_zero (some n) = n

  -- 0.0 where no record has the number.
  abbrev folded : F64 × ℕ → F64
  folded (acc, zero) = 0
  folded (acc, suc n) = acc

  abbrev aggregate_value : String → Option String → (F64 → F64 → F64) → List V → V
  aggregate_value op name f records = serde.make (
      View.object (
        single_kv (named op name) (
          serde.make (
            View.number (or_zero (serde.from_f64 (folded (fold_numeric f name records (0, 0)))))))))

  unfoldable pub apply_reducer : ReducerKind → List V → Option V
  unfolding fold_numeric
  apply_reducer count records = some (
      serde.make (
        View.object (single_kv "count" (serde.make (View.number (serde.of_u64 (length records)))))))
  apply_reducer collect records =
      some (serde.make (View.object (single_kv "collect" (serde.make (View.array records)))))
  apply_reducer (sum name) records = some (aggregate_value "sum" name std.add records)
  apply_reducer (min name) records = some (aggregate_value "min" name std.min records)
  apply_reducer (max name) records = some (aggregate_value "max" name std.max records)

  -- The records of all partitions, in order.
  unfoldable pub gather : List (PartitionData V) → Action (List V)
  unfolding into_parts
  gather [] = pure []
  gather (p ∷ partitions) = do
    (limit, path, recs) ← into_parts serde.json p
    rest ← gather partitions
    pure (recs ++ rest)

  abbrev pub or_null : Option V → V
  or_null none = serde.make View.null
  or_null (some v) = v

  abbrev pub reduce_partitions :
      List (PartitionData V) → ReducerKind → Action (List (PartitionData V))
  reduce_partitions [] reducer = pure []
  reduce_partitions (p ∷ ps) reducer = do
    all_records ← gather (p ∷ ps)
    result ←
        from_records serde.json p.partition_id (limit_bytes p) (spill_path p)
          (or_null (apply_reducer reducer all_records) ∷ [])
    pure (result ∷ [])

  unfoldable pub reduce : String → List (PartitionData V) → Action (List (PartitionData V))
  unfolding parse gather apply_reducer from_records
  reduce reducer partitions = do kind ← lift (parse reducer); reduce_partitions partitions kind

  abbrev group_of : Option (List V) → List V
  group_of none = []
  group_of (some recs) = recs

  -- The key of a record: a text in the field of an object.
  abbrev key_of : String → V → Option String
  key_of key r = elim (field serde r key) [ none ↦ none | some v ↦ as_str serde v ]

  unfoldable pub group_records :
      String → List V → HashMap String (List V) → Outcome (HashMap String (List V))
  unfolding get insert
  group_records key [] grouped = ok grouped
  group_records key (r ∷ recs) grouped = elim (key_of key r) [
    | none ↦ err (append "reduce_by_key: missing key field '" (append key "'"))
    | some k ↦ group_records key recs (insert grouped k (group_of (get grouped k) ++ r ∷ []))
  ]

  unfoldable pub group_partitions :
      String → List (PartitionData V) → HashMap String (List V) → Action (HashMap String (List V))
  unfolding into_parts group_records
  group_partitions key [] grouped = pure grouped
  group_partitions key (p ∷ partitions) grouped = do
    (limit, path, recs) ← into_parts serde.json p
    grouped' ← lift (group_records key recs grouped)
    group_partitions key partitions grouped'

  unfoldable pub insert_all : List (String × V) → M → M
  insert_all [] m = m
  insert_all ((k, v) ∷ entries) m = insert_all entries (serde.insert m k v)

  abbrev with_aggregate : String → M → Option V → M
  with_aggregate reducer obj none = obj
  with_aggregate reducer obj (some v) = elim (as_object serde v) [
    | none ↦ serde.insert obj reducer v
    | some inner ↦ insert_all (serde.entries inner) obj
  ]

  -- The record of one group: the key, and the aggregate's fields over it.
  unfoldable pub group_record : String → String → ReducerKind → String × List V → V
  unfolding apply_reducer insert_all
  group_record key reducer kind (k, recs) = serde.make (
      View.object (
        with_aggregate reducer (serde.insert serde.new_map key (serde.make (View.string k)))
          (apply_reducer kind recs)))

  abbrev pub unsupported : String → Outcome ReducerKind → Outcome ReducerKind
  unsupported reducer (ok kind) = ok kind
  unsupported reducer (err e) =
      err (append "reduce_by_key: unsupported reducer '" (append reducer "'"))

  module _ (iter : HashMap String (List V) → HashMap String (List V)) where
    abbrev pub reduce_groups :
        String → String → ReducerKind → List (PartitionData V) → Action (List (PartitionData V))
    reduce_groups key reducer kind [] = pure []
    reduce_groups key reducer kind (p ∷ ps) = do
      grouped ← group_partitions key (p ∷ ps) []
      result ←
          from_records serde.json p.partition_id (limit_bytes p) (spill_path p)
            (map (group_record key reducer kind) (iter grouped))
      pure (result ∷ [])

    -- No partitions are reduced to none before the reducer is looked at.
    unfoldable pub reduce_by_key :
        String → String → List (PartitionData V) → Action (List (PartitionData V))
    unfolding parse group_partitions from_records group_record
    reduce_by_key key reducer [] = pure []
    reduce_by_key key reducer (p ∷ ps) = do
      kind ← lift (unsupported reducer (parse reducer))
      reduce_groups key reducer kind (p ∷ ps)

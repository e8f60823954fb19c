-- ===== src/Worker/Ops/FlatMap.antt =====
-- `FlatMapOp`: src/worker/ops/flat_map.rs.
use Prim.Native.String.{◌++◌ as append}
use distributed_processing_e.Base.{
  ◌||◌, not, eqb, keep, map, String, Option, none, some, List, [], ◌∷◌, ◌++◌, if◌then◌else◌,
}
use distributed_processing_e.Base.Eq.{◌==◌, string_eq}
use distributed_processing_e.Base.Outcome.{Outcome, ok, err, ◌>>=◌}
use distributed_processing_e.Base.Text.{is_empty_text, is_whitespace, strip_prefix, split, trim}
use distributed_processing_e.Worker.Action.{Action, each}
use distributed_processing_e.Worker.Ops.Data.{PartitionData, remake}
use distributed_processing_e.Worker.Ops.Value.{View, Serde}

abbrev unknown_operation : String → String
unknown_operation func = append "flat_map: unknown operation '" (append func "'")

abbrev tokens : String → List String
tokens s =
    map trim
      (keep (λ t. not (is_empty_text (trim t))) (split (λ c. is_whitespace c || eqb c b',') s))

module _ {V M N : Type 0} (serde : Serde V M N) where
  abbrev with_field : M → String → V → V
  with_field m field v = serde.make (View.object (serde.insert m field v))

  abbrev or_record : V → List V → List V
  or_record record_value [] = record_value ∷ []
  or_record record_value (v ∷ vs) = v ∷ vs

  abbrev split_value : V → M → String → View V M N → List V
  split_value record_value m field (View.string s) =
      or_record record_value
        (map (λ tok. with_field m field (serde.make (View.string tok))) (tokens s))
  split_value record_value m field _ = record_value ∷ []

  abbrev explode_value : V → M → String → View V M N → List V
  explode_value record_value m field (View.array arr) = map (with_field m field) arr
  explode_value record_value m field _ = record_value ∷ []

  -- What a field of an object becomes; a record without it stays as it is.
  abbrev at_field : (V → M → String → View V M N → List V) → V → String → List V
  at_field f record_value field = elim (serde.view record_value) [
    | View.object m ↦ elim (serde.get m field) [
      | none ↦ record_value ∷ []
      | some val ↦ f record_value m field (serde.view val)
    ]
    | _ ↦ record_value ∷ []
  ]

  unfoldable pub split_field : V → String → List V
  unfolding split trim
  split_field = at_field split_value

  unfoldable pub explode_array : V → String → List V
  explode_array = at_field explode_value

  unfoldable pub json_expand : V → List V
  json_expand record_value = elim (serde.view record_value) [
    | View.object m ↦
        or_record record_value
          (map (λ entry. with_field serde.new_map entry.0 entry.1) (serde.entries m))
    | _ ↦ record_value ∷ []
  ]

  abbrev apply_prefixed : V → String → Option String → Option String → Outcome (List V)
  apply_prefixed record_value func (some field) _ = ok (split_field record_value field)
  apply_prefixed record_value func none (some field) = ok (explode_array record_value field)
  apply_prefixed record_value func none none =
      if func == "json_expand" then ok (json_expand record_value) else err (unknown_operation func)

  unfoldable pub apply : V → String → Outcome (List V)
  unfolding strip_prefix split_field explode_array json_expand
  apply record_value func =
      if func == "identity"
      then ok (record_value ∷ [])
      else apply_prefixed record_value func (strip_prefix "split:" func)
          (strip_prefix "explode_array:" func)

  unfoldable pub expand : String → List V → Outcome (List V)
  unfolding apply
  expand func [] = ok []
  expand func (r ∷ records) = do
    expanded ← apply r func
    new_records ← expand func records
    ok (expanded ++ new_records)

  unfoldable pub execute : String → List (PartitionData V) → Action (List (PartitionData V))
  unfolding remake each expand
  execute func partitions = each (remake serde.json (expand func)) partitions

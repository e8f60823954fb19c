-- ===== src/Worker/Ops/Filter.antt =====
-- `FilterOp`: src/worker/ops/filter.rs.
pub mod Passing
use Prim.Native.String.{◌++◌}
use distributed_processing_e.Base.{
  not, all, keep, String, Bool, true, false, Option, none, some, List, [], ◌∷◌, if◌then◌else◌,
}
use distributed_processing_e.Base.Eq.{◌==◌, string_eq}
use distributed_processing_e.Base.Outcome.{Outcome, ok, err, ok_or, ◌>>=◌}
use distributed_processing_e.Base.Text.{
  is_empty_text, strip_prefix, split_once, first_part, second_part,
}
use distributed_processing_e.Worker.Action.{Action, fail, each}
use distributed_processing_e.Worker.Ops.Data.{PartitionData, remake}
use distributed_processing_e.Worker.Ops.Value.{View, Serde, Std, F64, value_as_f64}

pub data Predicate (V : Type 0) : Type 0 where
  always_true always_false non_empty : Predicate V
  has_field : String → Predicate V
  equals : String → V → Predicate V
  gt lt : String → F64 → Predicate V

abbrev unknown_predicate : String → String
unknown_predicate raw = "unknown predicate: " ++ raw

abbrev invalid_predicate : String → String
invalid_predicate raw = "invalid predicate: " ++ raw

-- A field that is not empty, and the text behind `=`.
abbrev field_and_text : String → String → Outcome (String × String)
field_and_text raw rest =
    let parts = split_once b'=' rest in
    let name = first_part rest parts in
    if is_empty_text name
    then err (invalid_predicate raw)
    else do text ← ok_or (second_part parts) (invalid_predicate raw); ok (name, text)

module _ {V M N : Type 0} (serde : Serde V M N) (std : Std) where
  abbrev field_and_number : String → String → Outcome (String × F64)
  field_and_number raw rest = do
    (name, text) ← field_and_text raw rest
    num ← ok_or (std.parse_f64 text) (invalid_predicate raw)
    ok (name, num)

  abbrev parse_equals : String → String → Outcome (Predicate V)
  parse_equals raw rest = do
    (name, text) ← field_and_text raw rest
    ok (equals name (serde.make (View.string text)))

  abbrev parse_gt : String → String → Outcome (Predicate V)
  parse_gt raw rest = do (name, num) ← field_and_number raw rest; ok (gt name num)

  abbrev parse_lt : String → String → Outcome (Predicate V)
  parse_lt raw rest = do (name, num) ← field_and_number raw rest; ok (lt name num)

  -- The first prefix that fits decides.
  abbrev parse_prefixed :
      String → Option String → Option String → Option String → Option String → Outcome (Predicate V)
  parse_prefixed raw (some rest) _ _ _ = ok (has_field rest)
  parse_prefixed raw none (some rest) _ _ = parse_equals raw rest
  parse_prefixed raw none none (some rest) _ = parse_gt raw rest
  parse_prefixed raw none none none (some rest) = parse_lt raw rest
  parse_prefixed raw none none none none = err (unknown_predicate raw)

  unfoldable pub parse : String → Outcome (Predicate V)
  unfolding strip_prefix split_once
  parse raw =
      if raw == "non_empty"
      then ok non_empty
      else if raw == "always_true"
      then ok always_true
      else if raw == "always_false"
      then ok always_false
      else parse_prefixed raw (strip_prefix "has_field:" raw) (strip_prefix "equals:" raw)
          (strip_prefix "gt:" raw) (strip_prefix "lt:" raw)

  abbrev pub is_null : View V M N → Bool
  is_null View.null = true
  is_null _ = false

  abbrev pub has_values : List (String × V) → Bool
  has_values [] = false
  has_values (e ∷ es) = all (λ entry. not (is_null (serde.view entry.1))) (e ∷ es)

  -- Two texts are compared without regard to case, other values as they are.
  abbrev pub equals_value : V → V → View V M N → View V M N → Bool
  equals_value val expected (View.string actual) (View.string exp) =
      std.to_lowercase actual == std.to_lowercase exp
  equals_value val expected _ _ = serde.same val expected

  abbrev pub field_equals : Option V → V → Bool
  field_equals none expected = false
  field_equals (some val) expected =
      equals_value val expected (serde.view val) (serde.view expected)

  abbrev pub number_passes : (F64 → F64 → Bool) → Option V → F64 → Bool
  number_passes test none threshold = false
  number_passes test (some val) threshold = elim (value_as_f64 serde val) [
    | none ↦ false
    | some n ↦ test n threshold
  ]

  abbrev pub is_there : Option V → Bool
  is_there none = false
  is_there (some v) = true

  abbrev pub eval_map : M → Predicate V → Bool
  eval_map m always_true = true
  eval_map m always_false = false
  eval_map m non_empty = has_values (serde.entries m)
  eval_map m (has_field name) = is_there (serde.get m name)
  eval_map m (equals name expected) = field_equals (serde.get m name) expected
  eval_map m (gt name threshold) = number_passes std.gt (serde.get m name) threshold
  eval_map m (lt name threshold) = number_passes std.lt (serde.get m name) threshold

  -- Of what is not an object only the constant predicate holds.
  abbrev pub eval_other : Predicate V → Bool
  eval_other always_true = true
  eval_other _ = false

  unfoldable pub eval_predicate : V → Predicate V → Bool
  eval_predicate record_value pred = elim (serde.view record_value) [
    | View.object m ↦ eval_map m pred
    | _ ↦ eval_other pred
  ]

  abbrev pub filtered : Predicate V → List V → Outcome (List V)
  filtered pred records = ok (keep (λ r. eval_predicate r pred) records)

  abbrev pub filter_partitions :
      List (PartitionData V) → Outcome (Predicate V) → Action (List (PartitionData V))
  filter_partitions partitions (err e) = fail e
  filter_partitions partitions (ok pred) = each (remake serde.json (filtered pred)) partitions

  unfoldable pub execute : String → List (PartitionData V) → Action (List (PartitionData V))
  unfolding parse remake each eval_predicate
  execute predicate partitions = filter_partitions partitions (parse predicate)

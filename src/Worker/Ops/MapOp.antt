-- ===== src/Worker/Ops/MapOp.antt =====
-- `MapOp`: src/worker/ops/map.rs.
pub mod Nesting
pub mod Identity
pub mod Texts
mod Tests
use Prim.Native.String.{◌++◌}
use distributed_processing_e.Base.{
  ℕ, zero, suc, ◌+◌, ◌||◌, String, Option, none, some, List, [], ◌∷◌, if◌then◌else◌,
}
use distributed_processing_e.Base.Eq.{◌==◌, string_eq}
use distributed_processing_e.Base.Outcome.{Outcome, ok, err, ok_or, map_all, ◌>>=◌}
use distributed_processing_e.Worker.Action.{Action, each}
use distributed_processing_e.Worker.Ops.Data.{PartitionData, remake}
use distributed_processing_e.Worker.Ops.Value.{View, Serde, Std, I64, F64, double_i64}

abbrev unknown_function : String → String
unknown_function func = "unknown map function: " ++ func

module _ {V M N : Type 0} (serde : Serde V M N) (std : Std) where
  abbrev doubled_float : String → F64 → Outcome V
  doubled_float message f = do
    n ← ok_or (serde.from_f64 (std.double f)) message
    ok (serde.make (View.number n))

  abbrev doubled_int : I64 → V
  doubled_int i = serde.make (View.number (serde.of_i64 (double_i64 i)))

  -- A text that reads as a number is doubled, another one stays.
  abbrev double_text : String → Option I64 → Option F64 → Outcome V
  double_text s (some i) _ = ok (doubled_int i)
  double_text s none (some f) = doubled_float "failed to convert doubled float from string" f
  double_text s none none = ok (serde.make (View.string s))

  abbrev apply_text : String → String → Outcome V
  apply_text s func =
      if func == "identity"
      then ok (serde.make (View.string s))
      else if func == "uppercase"
      then ok (serde.make (View.string (std.to_uppercase s)))
      else if func == "lowercase"
      then ok (serde.make (View.string (std.to_lowercase s)))
      else if func == "double"
      then double_text s (std.parse_i64 s) (std.parse_f64 s)
      else err (unknown_function func)

  abbrev double_number : Option I64 → Option F64 → Outcome V
  double_number (some i) _ = ok (doubled_int i)
  double_number none (some f) = doubled_float "failed to convert doubled float" f
  double_number none none = ok (serde.make View.null)

  abbrev apply_number : N → String → Outcome V
  apply_number n func =
      if func == "double"
      then double_number (serde.as_i64 n) (serde.as_f64 n)
      else if func == "identity" || func == "uppercase" || func == "lowercase"
      then ok (serde.make (View.number n))
      else err (unknown_function func)

  -- The entries of an object in their order, each written back at its key.
  unfoldable pub apply_entries : (V → Outcome V) → M → List (String × V) → Outcome M
  apply_entries f m [] = ok m
  apply_entries f m ((key, val) ∷ entries) = do
    new_val ← f val
    apply_entries f (serde.insert m key new_val) entries

  abbrev pub apply_case : (V → Outcome V) → String → V → View V M N → Outcome V
  apply_case rec func v (View.string s) = apply_text s func
  apply_case rec func v (View.number n) = apply_number n func
  apply_case rec func v (View.array arr) = do
    out ← map_all rec arr
    ok (serde.make (View.array out))
  apply_case rec func v (View.object m) = do
    m' ← apply_entries rec m (serde.entries m)
    ok (serde.make (View.object m'))
  apply_case rec func v _ = ok v

  -- The recursion goes as deep as the value nests.
  unfoldable pub apply_fn : ℕ → V → String → Outcome V
  unfolding map_all apply_entries
  apply_fn zero value func = err "out of fuel"
  apply_fn (suc fuel) value func =
      apply_case (λ v. apply_fn fuel v func) func value (serde.view value)

  abbrev pub apply_record : String → V → Outcome V
  apply_record func record_value = apply_fn (serde.depth record_value + 1) record_value func

  unfoldable pub execute : String → List (PartitionData V) → Action (List (PartitionData V))
  unfolding remake each map_all apply_fn
  execute func partitions = each (remake serde.json (map_all (apply_record func))) partitions

-- ===== src/Worker/Executor/Tests.antt =====
-- A task that reads two rows of a CSV file and filters them.
use Prim.Native.String.{◌++◌ as append}
use distributed_processing_e.Base.{
  ℕ, ◌%◌, ◌^◌, ◌≡◌, refl, eqb, String, Option, none, some, List, [], ◌∷◌, map, length,
  if◌then◌else◌,
}
use distributed_processing_e.Base.Decimal.{show_nat}
use distributed_processing_e.Base.Eq.{string_eq}
use distributed_processing_e.Base.Map.{get}
use distributed_processing_e.Base.Outcome.{ok, map_all}
use distributed_processing_e.Base.Text.{before}
use distributed_processing_e.Samples.{config}
use distributed_processing_e.Spec.{OperatorType}
use distributed_processing_e.Types.{Task, TaskResult, TaskStatus}
use distributed_processing_e.Worker.Executor.{Mishap, path, execute_sync}
use distributed_processing_e.Worker.Executor.Computes.{ReadsThen, execute_sync_computes}
use distributed_processing_e.Worker.Ops.{Operator, from_type}
use distributed_processing_e.Worker.Ops.Filter
use distributed_processing_e.Worker.Ops.Read.{read_records}
use distributed_processing_e.Worker.Partition.{pieces, line_of, parse_lines}
use distributed_processing_e.Worker.Partition.RoundTrip.{Files, sound}
use distributed_processing_e.Worker.PartitionStore
use distributed_processing_e.Worker.PartitionStore.{PartitionStore}
use distributed_processing_e.Worker.Pipeline.{Engine}
use distributed_processing_e.Worker.Pipeline.Meaning.{meanings, ReadBack}
use distributed_processing_e.Worker.Samples.{serde, std, json-IsJson, sample_reads}

-- The texts of the characters "k", "1" and the newline.
abbrev one_text : ℕ → Option String → Option String
one_text b none = none
one_text b (some rest) =
    if eqb b b'k'
    then some (append "k" rest)
    else if eqb b b'1'
    then some (append "1" rest)
    else if eqb b 10
    then some (append "\n" rest)
    else none

abbrev text_of : List ℕ → Option String
text_of [] = some ""
text_of (b ∷ bytes) = one_text b (text_of bytes)

abbrev engine : Engine ℕ ℕ ℕ
engine = record {
  serde = serde;
  std = record std { from_utf8 = text_of };
  iter = λ groups. groups;
  debug_operator = λ op. "Filter";
}

abbrev store : PartitionStore
store = record { root = ""; config = config; uuid_text = show_nat; join = λ root path. path }

abbrev task : Task
task = record {
  task_id = 6;
  job_id = 1;
  stage_id = 0;
  attempt = 0;
  operator = OperatorType.filter "equals:k=a";
  operators = OperatorType.read "rows.csv" "csv" ∷ OperatorType.filter "equals:k=a" ∷ [];
  operator_ids = "n1" ∷ "n2" ∷ [];
  incoming_edges = [] ∷ ("n1->n2" ∷ []) ∷ [];
  partition = 0;
  input_uri = "rows.csv";
  input_format = "csv";
  total_partitions = 1;
}

abbrev rows : List ℕ
rows = b'k' ∷ 10 ∷ b'1' ∷ 10 ∷ b'1' ∷ 10 ∷ []

abbrev files : Files
files = ("rows.csv", rows) ∷ []

task-ReadsThen :
    ReadsThen engine json-IsJson task store config "rows.csv" "csv"
      (Operator.filter "equals:k=a" ∷ [])
unfolding map_all from_type before
task-ReadsThen = record {
  types = OperatorType.filter "equals:k=a" ∷ [];
  defs = refl;
  built = refl;
  source = refl;
  chain = (refl, tt);
  ids = refl;
}

rows_there : get files "rows.csv" ≡ some rows
unfolding get
rows_there = refl

rows_read : read_records serde engine.std 1 0 "csv" rows ≡ ok (0 ∷ 0 ∷ [])
unfolding read_records
rows_read = refl

rows_filtered : meanings engine (Operator.filter "equals:k=a" ∷ []) (0 ∷ 0 ∷ []) ≡ ok (0 ∷ 0 ∷ [])
unfolding Filter.parse Filter.eval_predicate
rows_filtered = refl

rows_back : ReadBack engine (Operator.filter "equals:k=a" ∷ []) (0 ∷ 0 ∷ [])
rows_back = (sample_reads (0 ∷ 0 ∷ []), λ made e. sample_reads made)

no_spill : get files (PartitionStore.spill_path store 1 1 0) ≡ none
unfolding get PartitionStore.spill_path
no_spill = refl

execute_sync_computes_example :
    (r : TaskResult) × (files' : Files) × (output : List ℕ) × (execute_sync engine task store config
        (record { mishap = Mishap.fine; duration_ms = 5 })
        (sound files)
      ≡ (r, sound files'))
    × (r.status ≡ TaskStatus.completed)
    × (r.result_location.path ≡ path engine task store config)
    × (r.result_location.size_bytes ≡ length output)
    × (r.metrics.processed_records ≡ 2 % 2 ^ 64)
    × (get files' (path engine task store config) ≡ some output)
    × (parse_lines serde.json (map line_of (pieces output)) ≡ ok (0 ∷ 0 ∷ []))
execute_sync_computes_example =
    execute_sync_computes engine json-IsJson task store config "rows.csv" "csv"
      (Operator.filter "equals:k=a" ∷ []) task-ReadsThen
      (record { mishap = Mishap.fine; duration_ms = 5 }) files rows (0 ∷ 0 ∷ []) (0 ∷ 0 ∷ []) refl
      rows_there rows_read rows_filtered rows_back no_spill

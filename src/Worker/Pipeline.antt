-- ===== src/Worker/Pipeline.antt =====
-- The operators of a task run one after another: `pipeline` in `execute_sync` of
-- src/worker/executor.rs.
pub mod Chain
pub mod Written
pub mod Meaning
use Prim.Native.String.{◌++◌ as append}
use distributed_processing_e.Base.{
  ℕ, zero, suc, eqb, map, length, get_elem?, String, Option, none, some, List, [], ◌∷◌, ◌++◌,
  if◌then◌else◌, last?,
}
use distributed_processing_e.Base.Decimal.{show_nat}
use distributed_processing_e.Base.Eq.{string_eq}
use distributed_processing_e.Base.Map.{HashMap, get, insert, remove}
use distributed_processing_e.Base.Outcome.{Outcome, ok, err}
use distributed_processing_e.Base.Range.{range}
use distributed_processing_e.Base.Text.{before}
use distributed_processing_e.Base.Words.{add_usize, saturating_sub}
use distributed_processing_e.Spec.{OperatorType}
use distributed_processing_e.Types.{
  TaskId, JobId, Task, TaskResult, TaskStatus, PartitionInfo, StageTrace,
}
use distributed_processing_e.Worker.Action.{Action, pure, lift, ◌>>=◌}
use distributed_processing_e.Worker.Ops.{Operator, name, execute}
use distributed_processing_e.Worker.Ops.Data.{
  PartitionData, record_count, has_spill, spill_path, empty, into_parts,
}
use distributed_processing_e.Worker.Ops.Value.{Serde, Std}
use distributed_processing_e.Worker.PartitionStore.{PartitionStore, partition_path, write_records}

-- `serde_json`, the standard library, the order in which a map of groups is iterated, and the `Debug`
-- text of an operator.
pub record Engine (V M N : Type 0) : Type 0 where
  pub serde : Serde V M N
  pub std : Std
  pub iter : HashMap String (List V) → HashMap String (List V)
  pub debug_operator : OperatorType → String

abbrev pub or_else {ℓ} : {A : Type ℓ} → Option A → A → A
or_else none a = a
or_else (some b) a = b

unfoldable pub failed_result :
    TaskId → JobId → String → OperatorType → ℕ → ℕ → String → String → ℕ → TaskResult
failed_result task_id job_id operator_name operator stage_id partition error path duration_ms =
    record {
      task_id = task_id;
      job_id = job_id;
      operator = operator;
      stage_id = stage_id;
      partition = partition;
      result_location = record { path = path; size_bytes = 0 };
      metrics = record {
        processed_records = 0;
        duration_ms = duration_ms;
        cpu_time_ms = duration_ms;
        wall_time_ms = duration_ms;
      };
      status = TaskStatus.failed (append operator_name (append ": " error));
      trace = none;
      final_partitions = none;
    }

-- The operators of a task, their ids and their incoming edges, with what stands in for empty lists.
abbrev pub operator_ids : Task → List String
operator_ids task = elim task.operator_ids [
  | [] ↦ map (λ idx. append "op-" (show_nat idx)) (range 0 (length task.operators))
  | id ∷ ids ↦ id ∷ ids
]

unfoldable pub no_edges : ℕ → List (List String)
no_edges zero = []
no_edges (suc n) = [] ∷ no_edges n

abbrev pub incoming_edges : Task → List (List String)
incoming_edges task = elim task.incoming_edges [
  | [] ↦ no_edges (length (operator_ids task))
  | es ∷ rest ↦ es ∷ rest
]

abbrev pub operator_defs : Task → List OperatorType
operator_defs task = elim task.operators [ [] ↦ task.operator ∷ [] | op ∷ ops ↦ op ∷ ops ]

abbrev pub final_stage_id : Task → ℕ
final_stage_id task = saturating_sub (length (operator_defs task)) 1

abbrev pub reported_operator : Task → OperatorType
reported_operator task = or_else (last? (operator_defs task)) task.operator

abbrev pub operator_name : List Operator → String
operator_name operators = elim (last? operators) [ none ↦ "unknown" | some op ↦ name op ]

abbrev pub edge_parents : List String → List String
edge_parents edges = map (before "->") edges

-- The last stage with the partitions that are written.
abbrev pub with_final : List PartitionInfo → List StageTrace → List StageTrace
with_final infos [] = []
with_final infos (s ∷ []) = record s { output_partitions = infos } ∷ []
with_final infos (s ∷ t ∷ stages) = s ∷ with_final infos (t ∷ stages)

abbrev pub last_outputs : List StageTrace → Option (List PartitionInfo)
last_outputs stages = elim (last? stages) [ none ↦ none | some s ↦ some s.output_partitions ]

module _ {V M N : Type 0} (eng : Engine V M N) where
  -- `iter().map(record_count).sum()`
  abbrev pub total_records : List (PartitionData V) → ℕ
  total_records [] = 0
  total_records (p ∷ ps) = add_usize (record_count p) (total_records ps)

  -- The outputs of the parents, each taken out of the map.
  unfoldable pub take_parents :
      List String
      → HashMap String (List (PartitionData V))
      → List (PartitionData V) × HashMap String (List (PartitionData V))
  unfolding get remove
  take_parents [] results = ([], results)
  take_parents (p ∷ parents) results =
      let (rest, results') = take_parents parents (remove results p) in
      (or_else (get results p) [] ++ rest, results')

  abbrev pub partition_info : PartitionData V → PartitionInfo
  partition_info p = record {
    partition_id = p.partition_id;
    record_count = record_count p;
    spill_path = if has_spill p then some (spill_path p) else none;
  }

  module _ (ids : List String) (edges : List (List String)) (partition_id limit : ℕ)
      (spill : String) where
    abbrev pub op_id : ℕ → String
    op_id idx = or_else (get_elem? ids idx) (append "op-" (show_nat idx))

    abbrev pub edges_at : ℕ → List String
    edges_at idx = or_else (get_elem? edges idx) []

    -- What an operator starts with: an empty partition where it has no parents.
    abbrev pub inputs :
        List String
        → HashMap String (List (PartitionData V))
        → List (PartitionData V) × HashMap String (List (PartitionData V))
    inputs [] results = (empty eng.serde.json partition_id limit spill ∷ [], results)
    inputs (p ∷ parents) results = take_parents (p ∷ parents) results

    abbrev pub stage_trace : ℕ → List (PartitionData V) → StageTrace
    stage_trace idx partitions = record {
      stage_id = idx;
      operator_id = op_id idx;
      incoming_edges = edges_at idx;
      output_partitions = map partition_info partitions;
    }

    -- The loop over the operators, with the outputs that are not used yet and the trace so far.
    unfoldable pub run_operators :
        ℕ
        → List Operator
        → HashMap String (List (PartitionData V))
        → List StageTrace
        → Action (HashMap String (List (PartitionData V)) × List StageTrace)
    unfolding take_parents insert execute before show_nat
    run_operators idx [] results stages = pure (results, stages)
    run_operators idx (op ∷ operators) results stages =
        let (partitions, left) = inputs (edge_parents (edges_at idx)) results in
        do
          outputs ← execute eng.serde eng.std eng.iter op partitions
          run_operators (suc idx) operators (insert left (op_id idx) outputs)
              (stages ++ stage_trace idx outputs ∷ [])

    abbrev pub final_output :
        HashMap String (List (PartitionData V)) × List StageTrace
        → Outcome (List (PartitionData V) × List StageTrace)
    final_output (results, stages) = elim (get results (or_else (last? ids) "final")) [
      | none ↦ err "missing final operator output"
      | some parts ↦ ok (parts, stages)
    ]

    unfoldable pub pipeline : List Operator → Action (List (PartitionData V) × List StageTrace)
    unfolding run_operators get
    pipeline operators = do end ← run_operators 0 operators [] []; lift (final_output end)

  module _ (store : PartitionStore) (job_id stage_id partition : ℕ) where
    -- The final partitions are written; the bytes of the task's own one come back.
    unfoldable pub write_partitions : List (PartitionData V) → ℕ → Action (ℕ × List PartitionInfo)
    unfolding into_parts write_records partition_path
    write_partitions [] final_bytes = pure (final_bytes, [])
    write_partitions (p ∷ partitions) final_bytes = do
      (limit, path, records) ← into_parts eng.serde.json p
      bytes ←
          write_records eng.serde.json (partition_path store job_id stage_id p.partition_id) records
      (final, infos) ←
          write_partitions partitions (if eqb p.partition_id partition then bytes else final_bytes)
      pure (
        final,
        record { partition_id = p.partition_id; record_count = length records; spill_path = none }
            ∷ infos,
      )

-- ===== src/Worker/Executor/Computes.antt =====
-- What a successful attempt of `execute_sync` of src/worker/executor.rs leaves on the disk, for a task
-- that reads a file and hands its rows through a chain of operators.
use mathlib.Core.Path.{subst}
use distributed_processing_e.Base.{
  ℕ, ◌%◌, ◌^◌, ◌+◌, ◌≡◌, refl, ap, ◌∙◌, String, none, some, List, [], ◌∷◌, map, length, max, eqb,
  if◌then◌else◌, arith,
}
use distributed_processing_e.Base.Eq.{string_eq}
use distributed_processing_e.Base.Map.{get}
use distributed_processing_e.Base.Outcome.{Outcome, ok, map_all}
use distributed_processing_e.Config.{Config}
use distributed_processing_e.Spec.{OperatorType}
use distributed_processing_e.Types.{Task, TaskResult, TaskStatus, StageTrace}
use distributed_processing_e.Worker.Executor.{
  Attempt, Mishap, total_partitions, spill, path, conclude, conclude_write, run_pipeline,
  run_attempt, run_built, execute_sync,
}
use distributed_processing_e.Worker.Ops.{Operator, from_type, execute}
use distributed_processing_e.Worker.Ops.Data.{PartitionData, empty}
use distributed_processing_e.Worker.Ops.Data.Carried.{Carries, frame}
use distributed_processing_e.Worker.Ops.Read.{ReadOp, read_records}
use distributed_processing_e.Worker.Ops.Read.Reading.{execute_reads}
use distributed_processing_e.Worker.Partition.{pieces, line_of, parse_lines}
use distributed_processing_e.Worker.Partition.Lines.{IsJson, encode}
use distributed_processing_e.Worker.Partition.RoundTrip.{Files, sound}
use distributed_processing_e.Worker.PartitionStore.{PartitionStore, partition_path}
use distributed_processing_e.Worker.Pipeline.{
  Engine, operator_ids, incoming_edges, operator_defs, edge_parents, edges_at, stage_trace,
  final_stage_id, operator_name, total_records,
}
use distributed_processing_e.Worker.Pipeline.Chain.{IsChain, pipeline-run_chain}
use distributed_processing_e.Worker.Pipeline.Meaning.{
  meanings, ReadBack, ReadBack-Exact, run_chain-meanings,
}
use distributed_processing_e.Worker.Pipeline.Written.{final_size, write_partitions-AllWritten}

module _ {V M N : Type 0} (eng : Engine V M N) (laws : IsJson eng.serde.json) (task : Task)
    (store : PartitionStore) (config : Config) where
  abbrev pub read_op : String → String → ReadOp
  read_op uri format = record {
    path = uri;
    format = format;
    partition_id = task.partition;
    total_partitions = max (total_partitions eng task store config) 1;
    cache_limit_bytes = config.partition_cache_limit_bytes;
    spill_path = spill eng task store config;
  }

  abbrev build : OperatorType → Outcome Operator
  build op =
      from_type op task.partition (total_partitions eng task store config)
        config.partition_cache_limit_bytes (spill eng task store config)

  -- The task reads a file and goes on with the operators, each after the one before it.
  pub record ReadsThen (uri format : String) (operators : List Operator) : Type 0 where
    pub types : List OperatorType
    pub defs : operator_defs task ≡ OperatorType.read uri format ∷ types
    pub built : map_all build types ≡ ok operators
    pub source :
        edge_parents (
          edges_at eng
            (operator_ids task)
            (incoming_edges task)
            task.partition
            config.partition_cache_limit_bytes
            (spill eng task store config)
            0)
        ≡ []
    pub chain :
        IsChain eng
          (operator_ids task)
          (incoming_edges task)
          task.partition
          config.partition_cache_limit_bytes
          (spill eng task store config)
          0
          (length operators)
    pub ids : length (operator_ids task) ≡ length operators + 1

  module _ (uri format : String) (operators : List Operator)
      (shape : ReadsThen uri format operators) where
    abbrev all_operators : List Operator
    all_operators = Operator.read (read_op uri format) ∷ operators

    all_built : map_all build (operator_defs task) ≡ ok all_operators
    unfolding map_all from_type
    all_built = ap (map_all build) shape.defs ∙ rw shape.built refl

    pipeline_computes :
        (files : Files) (bytes : List ℕ) (records ws : List V)
        → get files uri ≡ some bytes
        → read_records eng.serde eng.std
            (read_op uri format).total_partitions
            task.partition
            format
            bytes
          ≡ ok records
        → meanings eng operators records ≡ ok ws
        → ReadBack eng operators records
        → get files (spill eng task store config) ≡ none
        → (p : PartitionData V) × (files' : Files) × (stages : List StageTrace) × (run_pipeline eng
              task store config all_operators
              (sound files)
            ≡ (ok (p ∷ [], stages), sound files'))
          × Carries eng.serde.json p files' ws
          × (frame p
              ≡ (task.partition, config.partition_cache_limit_bytes, spill eng task store config))
    unfolding execute
    pipeline_computes files bytes records ws there reads means back absent =
        let ids = operator_ids task in
        let edges = incoming_edges task in
        let limit = config.partition_cache_limit_bytes in
        let start = empty eng.serde.json task.partition limit (spill eng task store config) ∷ [] in
        let (p₁, files₁, read, h₁, same₁) =
          execute_reads eng.serde eng.std laws (read_op uri format) start files bytes records there
            reads (ReadBack-Exact eng operators records back) absent in
        let (p₂, files₂, stages, rest, h₂, same₂) =
          run_chain-meanings eng laws ids edges task.partition limit (spill eng task store config) 1
            operators p₁ files₁
            (stage_trace eng ids edges task.partition limit (spill eng task store config) 0
                (p₁ ∷ [])
              ∷ [])
            records ws means back h₁ in
        (
          p₂,
          files₂,
          stages,
          pipeline-run_chain eng ids edges task.partition limit (spill eng task store config)
                (Operator.read (read_op uri format)) operators (sound files) shape.source
                shape.chain (shape.ids ∙ omega arith)
              ∙ rw read rest,
          h₂,
          same₂ ∙ same₁,
        )

    -- The size of the file that is written, where the partition has the task's number.
    own_size :
        (p : PartitionData V) (ws : List V)
        → p.partition_id ≡ task.partition
        → final_size eng laws store task.job_id
            (final_stage_id task)
            task.partition
            (p ∷ [])
            (ws ∷ [])
            0
          ≡ length (encode eng.serde.json ws)
    own_size p ws own = rw own (if_self (length (encode eng.serde.json ws)) task.partition)
      where
        if_self : (n k : ℕ) → (if eqb k k then n else 0) ≡ n
        if_self n k = ground arith

    -- While the disk does not fail, and nothing happens to the attempt: for a task that reads a file and
    -- hands its rows through a chain of maps, filters, flat maps and reductions, where the file is there,
    -- the task's rows of it can be read and the operators make a result of them, the rows and what the
    -- operators make of them are read back from JSON as they were written, and no spill file of the task
    -- is there, the attempt is reported as completed. The report names the file of the task's
    -- partition with its size and the number of its records, and the lines of that file are the records
    -- that the operators make, one after another, of the rows.
    pub execute_sync_computes :
        (attempt : Attempt) (files : Files) (bytes : List ℕ) (records ws : List V)
        → attempt.mishap ≡ Mishap.fine
        → get files uri ≡ some bytes
        → read_records eng.serde eng.std
            (read_op uri format).total_partitions
            task.partition
            format
            bytes
          ≡ ok records
        → meanings eng operators records ≡ ok ws
        → ReadBack eng operators records
        → get files (spill eng task store config) ≡ none
        → (r : TaskResult) × (files' : Files) × (output : List ℕ) × (execute_sync eng task store
              config attempt
              (sound files)
            ≡ (r, sound files'))
          × (r.status ≡ TaskStatus.completed)
          × (r.result_location.path ≡ path eng task store config)
          × (r.result_location.size_bytes ≡ length output)
          × (r.metrics.processed_records ≡ length ws % 2 ^ 64)
          × (get files' (path eng task store config) ≡ some output)
          × (parse_lines eng.serde.json (map line_of (pieces output)) ≡ ok ws)
    unfolding execute_sync
    execute_sync_computes attempt files bytes records ws fine there reads means back absent =
        let (p, files₁, stages, runs, h, same) =
          pipeline_computes files bytes records ws there reads means back absent in
        let name = operator_name all_operators in
        let processed = total_records eng (p ∷ []) in
        let own : p.partition_id ≡ task.partition = ap (λ t. t.0) same in
        let (files₂, wrote, written, _) =
          write_partitions-AllWritten eng laws store task.job_id (final_stage_id task)
            task.partition (p ∷ []) files₁ (ws ∷ []) 0 (tt, tt) (h, tt) in
        (
          (conclude_write eng task store config name attempt.duration_ms processed stages
              (ok (_, _), sound files₂)).0,
          files₂,
          encode eng.serde.json ws,
          ap (λ o. run_built eng task store config attempt o (sound files)) all_built
              ∙ ap (λ m. run_attempt eng task store config all_operators attempt m (sound files))
                  fine
              ∙ ap (conclude eng task store config name attempt.duration_ms) runs
              ∙ ap (conclude_write eng task store config name attempt.duration_ms processed stages)
                  wrote,
          refl,
          refl,
          own_size p ws own,
          omega (arith, h.counted),
          subst
              (λ k.
                get files₂ (partition_path store task.job_id (final_stage_id task) k)
                ≡ some (encode eng.serde.json ws))
              own written.0.0,
          written.0.1,
        )

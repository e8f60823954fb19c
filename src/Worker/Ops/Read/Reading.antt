-- ===== src/Worker/Ops/Read/Reading.antt =====
-- `ReadOp::execute` of src/worker/ops/read.rs on a file that is there.
use Prim.Native.String.{◌++◌ as append}
use distributed_processing_e.Base.{All, ℕ, ◌≡◌, refl, ap, ◌∙◌, none, some, List, [], ◌∷◌}
use distributed_processing_e.Base.Eq.{string_eq}
use distributed_processing_e.Base.Map.{get}
use distributed_processing_e.Base.Outcome.{ok, err}
use distributed_processing_e.Worker.Disk.{after, contents}
use distributed_processing_e.Worker.Ops.Data.{PartitionData}
use distributed_processing_e.Worker.Ops.Data.Carried.{Carries, frame, from_records-Carries}
use distributed_processing_e.Worker.Ops.Read.{ReadOp, read_records, open_records, execute}
use distributed_processing_e.Worker.Ops.Value.{Serde, Std}
use distributed_processing_e.Worker.Partition.Lines.{IsJson, Exact}
use distributed_processing_e.Worker.Partition.RoundTrip.{Files, sound}

module _ {V M N : Type 0} (serde : Serde V M N) (std : Std) (laws : IsJson serde.json) where
  pub execute_reads :
      (op : ReadOp) (ps : List (PartitionData V)) (files : Files) (bytes : List ℕ)
      (records : List V)
      → get files op.path ≡ some bytes
      → read_records serde std op.total_partitions op.partition_id op.format bytes ≡ ok records
      → All (Exact serde.json) records
      → get files op.spill_path ≡ none
      → (p : PartitionData V) × (files' : Files) × (execute serde std op ps (sound files)
          ≡ (ok (p ∷ []), sound files'))
        × Carries serde.json p files' records
        × (frame p ≡ (op.partition_id, op.cache_limit_bytes, op.spill_path))
  unfolding execute
  execute_reads op ps files bytes records there reads exact absent =
      let (p, files', put, h, same, _) =
        from_records-Carries serde.json laws op.partition_id op.cache_limit_bytes op.spill_path
          records files exact absent in
      (
        p,
        files',
        ap
              (λ o.
                after (contents o, sound files)
                  (λ e d₁. (err (append "opening input " op.path), d₁))
                  (λ bytes.
                    open_records serde std op
                      (read_records serde std op.total_partitions op.partition_id op.format bytes)))
              there
            ∙ ap (λ r. open_records serde std op r (sound files)) reads
            ∙ rw put refl,
        h,
        same,
      )

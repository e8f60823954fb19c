-- ===== src/Worker/PartitionStore.antt =====
-- `PartitionStore` of src/worker/partition.rs: where the partitions of a job lie, and their files.
pub mod Written
use Prim.Native.String.{◌++◌ as append}
use Prim.Native.Char.{code}
use distributed_processing_e.Base.{
  ℕ, ◌≡◌, refl, sym, ap, ◌∙◌, String, Bool, true, false, ◌||◌, Option, none, some, List, [], ◌∷◌,
  ◌++◌, map, leb, eqb, length, if◌then◌else◌,
}
use distributed_processing_e.Base.Decimal.{show_nat}
use distributed_processing_e.Base.Eq.{string_eq}
use distributed_processing_e.Base.Map.{get, insert, get-insert_self}
use distributed_processing_e.Base.Outcome.{Outcome, ok, err}
use distributed_processing_e.Config.{Config}
use distributed_processing_e.Worker.Disk.{Disk, after, make_dir, write_file, read_all}
use distributed_processing_e.Worker.Partition.{Json, pieces, line_of, parse_lines}
use distributed_processing_e.Worker.Partition.Lines.{IsJson, encode, parse_lines-encode}

-- `uuid_text` is the text of a job's identifier, `join` is `Path::join`.
pub record PartitionStore : Type 0 where
  pub root : String
  pub config : Config
  pub uuid_text : ℕ → String
  pub join : String → String → String

module _ (store : PartitionStore) where
  unfoldable pub partition_path : ℕ → ℕ → ℕ → String
  unfolding show_nat
  partition_path job_id stage_id partition = store.join store.root (
      append (store.uuid_text job_id) (
        append "/"
          (append (show_nat stage_id) (append "/part-" (append (show_nat partition) ".bin")))))

  unfoldable pub spill_path : ℕ → ℕ → ℕ → String
  unfolding show_nat
  spill_path job_id stage_id partition = store.join store.root (
      append (store.uuid_text job_id) (
        append "/"
          (append (show_nat stage_id) (append "/spill-" (append (show_nat partition) ".bin")))))

  unfoldable pub should_spill : ℕ → Bool
  should_spill current_size_mb =
      leb store.config.spill_threshold_mb current_size_mb
      || leb store.config.max_memory_mb current_size_mb

-- The file is made anew.
unfoldable pub spill_to_disk : String → List ℕ → Disk → Outcome (Unit {0}) × Disk
spill_to_disk path bytes d =
    after (make_dir d) (λ e d. (err e, d)) (λ _ d₁. write_file path bytes d₁)

unfoldable pub read_from_disk : String → Disk → Outcome (List ℕ) × Disk
read_from_disk path d = read_all path d

module _ {V : Type 0} (json : Json V) where
  unfoldable pub records_buffer : List V → List ℕ → List ℕ
  records_buffer [] buf = buf
  records_buffer (v ∷ records) buf = records_buffer records ((buf ++ json.to_vec v) ++ 10 ∷ [])

  -- The size of the file comes back.
  unfoldable pub write_records : String → List V → Disk → Outcome ℕ × Disk
  unfolding records_buffer spill_to_disk
  write_records path records d =
      let buf = records_buffer records [] in
      after (spill_to_disk path buf d) (λ e d. (err e, d)) (λ _ d₁. (ok (length buf), d₁))

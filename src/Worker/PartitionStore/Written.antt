-- ===== src/Worker/PartitionStore/Written.antt =====
-- What `write_records` writes is read back, and partitions do not share files.
use text.Mathlib.TextLemmas.{append_cancel_left, append_cancel_right}
use mathlib.Core.List.{append_assoc, append-nil}
use distributed_processing_e.Base.{
  All, ℕ, ◌≡◌, ◌≢◌, refl, sym, ap, ◌∙◌, String, List, [], ◌∷◌, ◌++◌, map, length,
}
use distributed_processing_e.Base.Decimal.{show_nat, show_nat_inj}
use distributed_processing_e.Base.Eq.{string_eq}
use distributed_processing_e.Base.Map.{insert, get-insert_self}
use distributed_processing_e.Base.Outcome.{ok}
use distributed_processing_e.Worker.Disk.{contents}
use distributed_processing_e.Worker.Partition.{Json, pieces, line_of, parse_lines}
use distributed_processing_e.Worker.Partition.Lines.{IsJson, Exact, encode, parse_lines-encode}
use distributed_processing_e.Worker.Partition.RoundTrip.{Files, sound}
use distributed_processing_e.Worker.PartitionStore.{
  PartitionStore, partition_path, spill_to_disk, read_from_disk, records_buffer, write_records,
}

module _ {V : Type 0} (json : Json V) where
  records_buffer-encode :
      (vs : List V) (buf : List ℕ) → records_buffer json vs buf ≡ buf ++ encode json vs
  unfolding records_buffer
  records_buffer-encode [] buf = sym (append-nil buf)
  records_buffer-encode (v ∷ vs) buf =
      records_buffer-encode vs ((buf ++ json.to_vec v) ++ 10 ∷ [])
      ∙ append_assoc (buf ++ json.to_vec v) (10 ∷ []) (encode json vs)
      ∙ append_assoc buf (json.to_vec v) (10 ∷ encode json vs)

  pub write_records-sound :
      (path : String) (vs : List V) (files : Files)
      → write_records json path vs (sound files) ≡ (
        ok (length (encode json vs)),
        sound (insert (insert files path []) path (encode json vs)),
      )
  unfolding write_records spill_to_disk
  write_records-sound path vs files =
      ap (λ bytes. (ok (length bytes), sound (insert (insert files path []) path bytes)))
        (records_buffer-encode vs [])

  -- While the disk does not fail, for records that are read back from JSON as they were written:
  -- `write_records` returns the number of bytes of the file that is
  -- there then, and the lines of that file are the records, in order.
  write_records-read_from_disk :
      IsJson json
      → (path : String) (records : List V) (files : Files) → All (Exact json) records
      → (bytes : List ℕ) × ((write_records json path records (sound files)).0 ≡ ok (length bytes))
        × ((read_from_disk path (write_records json path records (sound files)).1).0 ≡ ok bytes)
        × (parse_lines json (map line_of (pieces bytes)) ≡ ok records)
  unfolding write_records spill_to_disk read_from_disk
  write_records-read_from_disk laws path records files reads = (
    records_buffer json records [],
    refl,
    ap contents (get-insert_self _ path (records_buffer json records [])),
    ap (λ bytes. parse_lines json (map line_of (pieces bytes))) (records_buffer-encode records [])
        ∙ parse_lines-encode json laws records reads,
  )

-- Two partitions of a stage have different files, where `Path::join` keeps different relative paths
-- apart.
partition_path_distinct :
    (store : PartitionStore) (job_id stage_id p q : ℕ)
    → ((a b : String) → store.join store.root a ≡ store.join store.root b → a ≡ b)
    → p ≢ q
    → partition_path store job_id stage_id p ≢ partition_path store job_id stage_id q
unfolding partition_path
partition_path_distinct store job_id stage_id p q inj differ same = differ (
    show_nat_inj p q (
      append_cancel_right (show_nat p) (show_nat q) ".bin" (
        append_cancel_left "/part-" _ _ (
          append_cancel_left (show_nat stage_id) _ _ (
            append_cancel_left "/" _ _
              (append_cancel_left (store.uuid_text job_id) _ _ (inj _ _ same)))))))

-- ===== src/Worker/Ops/Join/Executed.antt =====
-- `JoinOp::execute` of src/worker/ops/join.rs on two partitions, while the disk does not fail.
use distributed_processing_e.Base.{All, ◌≡◌, ◌≢◌, refl, sym, ◌∙◌, true, String, List, [], ◌∷◌}
use distributed_processing_e.Base.Outcome.{ok}
use distributed_processing_e.Spec.{JoinType}
use distributed_processing_e.Worker.Ops.Data.{PartitionData, limit_bytes, spill_path}
use distributed_processing_e.Worker.Ops.Data.Carried.{
  Carries, frame, into_parts-Carries, from_records-Carries,
}
use distributed_processing_e.Worker.Ops.Join.{keeps_right, least, execute}
use distributed_processing_e.Worker.Ops.Join.Marks.{NoRepeats}
use distributed_processing_e.Worker.Ops.Join.Relational.{
  relational_join, join_records-relational_join,
}
use distributed_processing_e.Worker.Ops.Join.Rows.{AllKeyed}
use distributed_processing_e.Worker.Ops.Value.{Serde}
use distributed_processing_e.Worker.Partition.Frame.{Holds-files}
use distributed_processing_e.Worker.Partition.Lines.{IsJson, Exact}
use distributed_processing_e.Worker.Partition.RoundTrip.{Files, sound}

module _ {V M N : Type 0} (serde : Serde V M N) (laws : IsJson serde.json) where
  -- While the disk does not fail, the two inputs spill to different files, every record of both is an
  -- object with a key, every map is equal to itself, and the records of the inputs and of the join are
  -- read back from JSON as they were written: a join succeeds with one partition, which takes the smaller of the two numbers
  -- and the limit and path of the left input, and holds the relational join: every left row with every
  -- right row of the same key, in the order of the left rows and then of the right ones; a left row that
  -- meets no right row by itself where the kind of join keeps left rows; and after these, where it keeps
  -- right rows, each right row whose key no left row has. For the joins that keep right rows no right row
  -- may be equal to an earlier one.
  pub execute-relational_join :
      (key : String) (join_type : JoinType) (l r : PartitionData V) (files : Files)
      (left right : List V) (lrows rrows : List (String × M))
      → ((m : M) → serde.same_map m m ≡ true)
      → spill_path l ≢ spill_path r
      → Carries serde.json l files left
      → Carries serde.json r files right
      → AllKeyed serde key left lrows
      → AllKeyed serde key right rrows
      → (keeps_right join_type ≡ true → NoRepeats serde.same_map [] rrows)
      → All (Exact serde.json) (relational_join serde join_type lrows rrows)
      → (p : PartitionData V) × (files' : Files) × (execute serde key join_type
            (l ∷ r ∷ [])
            (sound files)
          ≡ (ok (p ∷ []), sound files'))
        × Carries serde.json p files' (relational_join serde join_type lrows rrows)
        × (frame p ≡ (least serde l.partition_id r.partition_id, limit_bytes l, spill_path l))
  unfolding execute
  execute-relational_join key join_type l r files left right lrows rrows reflexive apart hl hr kl kr
        fresh reads =
      let (files₁, taken₁, gone, others₁) = into_parts-Carries serde.json laws l files left hl in
      let (files₂, taken₂, _, others₂) =
        into_parts-Carries serde.json laws r files₁ right
          (Holds-files serde.json r.cache files files₁ right (others₁ (spill_path r) apart) hr) in
      let (p, files₃, made, h, same, _) =
        from_records-Carries serde.json laws (least serde l.partition_id r.partition_id)
          (limit_bytes l) (spill_path l) (relational_join serde join_type lrows rrows) files₂ reads
          (others₂ (spill_path l) (λ e. apart (sym e)) ∙ gone) in
      (
        p,
        files₃,
        rw
            (
              taken₁,
              taken₂,
              join_records-relational_join serde key join_type left right lrows rrows reflexive kl
                  kr fresh,
              made,
            )
            refl,
        h,
        same,
      )

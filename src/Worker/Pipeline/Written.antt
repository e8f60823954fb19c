-- ===== src/Worker/Pipeline/Written.antt =====
-- What the executor of src/worker/executor.rs writes of the final partitions.
use distributed_processing_e.Base.{
  ℕ, ◌≡◌, ◌≢◌, refl, sym, ap, ◌∙◌, String, none, some, List, [], ◌∷◌, map, length, All, eqb,
  if◌then◌else◌,
}
use distributed_processing_e.Base.Eq.{string_eq}
use distributed_processing_e.Base.Map.{get, insert, get-insert_self, get-insert_ne}
use distributed_processing_e.Base.Outcome.{ok, err}
use distributed_processing_e.Types.{PartitionInfo}
use distributed_processing_e.Worker.Action.{Action, pure, ◌>>=◌}
use distributed_processing_e.Worker.Disk.{Disk, after}
use distributed_processing_e.Worker.Ops.Data.{into_parts, PartitionData, spill_path}
use distributed_processing_e.Worker.Ops.Data.Carried.{AllCarry, into_parts-Carries, AllCarry-files}
use distributed_processing_e.Worker.Partition.{pieces, line_of, parse_lines}
use distributed_processing_e.Worker.Partition.Lines.{IsJson, encode, parse_lines-encode}
use distributed_processing_e.Worker.Partition.RoundTrip.{Files, sound}
use distributed_processing_e.Worker.PartitionStore.{PartitionStore, partition_path, write_records}
use distributed_processing_e.Worker.PartitionStore.Written.{write_records-sound}
use distributed_processing_e.Worker.Pipeline.{Engine, write_partitions}

module _ {V M N : Type 0} (eng : Engine V M N) (laws : IsJson eng.serde.json)
    (store : PartitionStore) (job_id stage_id partition : ℕ) where
  abbrev pub path_of : PartitionData V → String
  path_of p = partition_path store job_id stage_id p.partition_id

  -- No two of the partitions share a file that is written or spilled to.
  abbrev pub Separate : List (PartitionData V) → Type 0
  Separate [] = Unit
  Separate (p ∷ ps) =
      All
        (λ q.
          (path_of p ≢ path_of q)
          × (path_of p ≢ spill_path q)
          × (spill_path p ≢ path_of q)
          × (spill_path p ≢ spill_path q))
        ps
      × Separate ps

  -- The file of each partition has the records of the partition as its lines.
  abbrev pub AllWritten : List (PartitionData V) → Files → List (List V) → Type 0
  AllWritten [] files [] = Unit
  AllWritten [] files (vs ∷ vss) = ⊥
  AllWritten (p ∷ ps) files [] = ⊥
  AllWritten (p ∷ ps) files (vs ∷ vss) =
      ((get files (path_of p) ≡ some (encode eng.serde.json vs))
        × (parse_lines eng.serde.json (map line_of (pieces (encode eng.serde.json vs))) ≡ ok vs))
      × AllWritten ps files vss

  abbrev pub info : PartitionData V → List V → PartitionInfo
  info p vs = record { partition_id = p.partition_id; record_count = length vs; spill_path = none }

  abbrev pub infos : List (PartitionData V) → List (List V) → List PartitionInfo
  infos [] vss = []
  infos (p ∷ ps) [] = []
  infos (p ∷ ps) (vs ∷ vss) = info p vs ∷ infos ps vss

  -- The bytes of the task's own partition.
  abbrev pub final_size : List (PartitionData V) → List (List V) → ℕ → ℕ
  final_size [] vss size = size
  final_size (p ∷ ps) [] size = size
  final_size (p ∷ ps) (vs ∷ vss) size =
      final_size ps vss
        (if eqb p.partition_id partition then length (encode eng.serde.json vs) else size)

  abbrev pub Untouched : List (PartitionData V) → String → Type 0
  Untouched ps q = All (λ p. (path_of p ≢ q) × (spill_path p ≢ q)) ps

  All-map :
      {A : Type 0} (P Q : A → Type 0) (xs : List A) → ((x : A) → P x → Q x) → All P xs → All Q xs
  All-map P Q [] f h = tt
  All-map P Q (x ∷ xs) f h = (f x h.0, All-map P Q xs f h.1)

  -- The files after the file of a partition is written.
  abbrev with_file : PartitionData V → List V → Files → Files
  with_file p vs files = insert (insert files (path_of p) []) (path_of p) (encode eng.serde.json vs)

  with_file_ne :
      (p : PartitionData V) (vs : List V) (files : Files) (q : String)
      → path_of p ≢ q
      → get (with_file p vs files) q ≡ get files q
  with_file_ne p vs files q other =
      get-insert_ne _ (path_of p) _ q other ∙ get-insert_ne files (path_of p) [] q other

  abbrev after_write :
      PartitionData V → List (PartitionData V) → ℕ → List V → ℕ → Action (ℕ × List PartitionInfo)
  after_write p ps size vs bytes =
      write_partitions eng store job_id stage_id partition ps
        (if eqb p.partition_id partition then bytes else size)
      >>= λ t. pure (t.0, info p vs ∷ t.1)

  -- One round of the loop and the rounds after it.
  write_partitions_step :
      (p : PartitionData V) (ps : List (PartitionData V)) (size : ℕ) (d : Disk) {d₁ d₂ d₃ : Disk}
      {limit bytes final : ℕ} {path : String} {vs : List V} {is : List PartitionInfo}
      → into_parts eng.serde.json p d ≡ (ok (limit, path, vs), d₁)
      → write_records eng.serde.json (path_of p) vs d₁ ≡ (ok bytes, d₂)
      → write_partitions eng store job_id stage_id partition ps
          (if eqb p.partition_id partition then bytes else size)
          d₂
        ≡ (ok (final, is), d₃)
      → write_partitions eng store job_id stage_id partition (p ∷ ps) size d
        ≡ (ok (final, info p vs ∷ is), d₃)
  unfolding write_partitions
  write_partitions_step p ps size d {vs} taken wrote rest =
      ap
        (λ x.
          after x (λ e d. (err e, d))
            (λ t. write_records eng.serde.json (path_of p) t.2 >>= after_write p ps size t.2))
        taken
      ∙ ap (λ x. after x (λ e d. (err e, d)) (after_write p ps size vs)) wrote
      ∙ ap (λ x. after x (λ e d. (err e, d)) (λ t. pure (t.0, info p vs ∷ t.1))) rest

  -- While the disk does not fail, the partitions share no file, and their records are read back from
  -- JSON as they were written: the final partitions are written,
  -- the file of each has its records as lines, and the report gives the number of records of each
  -- and the size of the task's own file.
  pub write_partitions-AllWritten :
      (ps : List (PartitionData V)) (files : Files) (vss : List (List V)) (size : ℕ)
      → Separate ps
      → AllCarry eng.serde.json ps files vss
      → (files' : Files) × (write_partitions eng store job_id stage_id partition ps size
            (sound files)
          ≡ (ok (final_size ps vss size, infos ps vss), sound files'))
        × AllWritten ps files' vss
        × ((q : String) → Untouched ps q → get files' q ≡ get files q)
  unfolding write_partitions
  write_partitions-AllWritten [] files [] size apart h = (files, refl, tt, λ q other. refl)
  write_partitions-AllWritten [] files (vs ∷ vss) size apart h = absurd h
  write_partitions-AllWritten (p ∷ ps) files [] size apart h = absurd h
  write_partitions-AllWritten (p ∷ ps) files (vs ∷ vss) size apart h =
      let (files₁, taken, gone, others₁) = into_parts-Carries eng.serde.json laws p files vs h.0 in
      let still : AllCarry eng.serde.json ps files₁ vss =
        AllCarry-files eng.serde.json laws ps files files₁ vss (spill_path p)
          (All-map _ _ ps (λ q h. h.3) apart.0) others₁ h.1 in
      let still' : AllCarry eng.serde.json ps (with_file p vs files₁) vss =
        AllCarry-files eng.serde.json laws ps files₁ (with_file p vs files₁) vss (path_of p)
          (All-map _ _ ps (λ q h. h.1) apart.0) (with_file_ne p vs files₁) still in
      let (files₂, rest, written, others₂) =
        write_partitions-AllWritten ps (with_file p vs files₁) vss
          (if eqb p.partition_id partition then length (encode eng.serde.json vs) else size) apart.1
          still' in
      (
        files₂,
        write_partitions_step p ps size (sound files) taken
            (write_records-sound eng.serde.json (path_of p) vs files₁) rest,
        (
          (
            others₂ (path_of p)
                  (All-map _ _ ps (λ q h. ((λ e. h.0 (sym e)), (λ e. h.1 (sym e)))) apart.0)
                ∙ get-insert_self _ (path_of p) (encode eng.serde.json vs),
            parse_lines-encode eng.serde.json laws vs h.0.exact,
          ),
          written,
        ),
        λ q other. others₂ q other.1 ∙ with_file_ne p vs files₁ q other.0.0 ∙ others₁ q other.0.1,
      )

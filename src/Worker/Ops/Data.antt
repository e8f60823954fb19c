-- ===== src/Worker/Ops/Data.antt =====
-- `PartitionData` of src/worker/ops/mod.rs: a numbered partition on its way between operators.
pub mod Carried
use distributed_processing_e.Base.{ℕ, String, Bool, true, false, Option, none, some, List}
use distributed_processing_e.Base.Outcome.{Outcome, ok, err}
use distributed_processing_e.Worker.Action.{Action, lift, ◌>>=◌}
use distributed_processing_e.Worker.Disk.{Disk}
use distributed_processing_e.Worker.Partition.{
  Json, PartitionCache, new_cache, push_batch, drain_all,
}

pub record PartitionData (V : Type 0) : Type 0 where
  pub partition_id : ℕ
  pub cache : PartitionCache V

abbrev is_some : Option String → Bool
is_some none = false
is_some (some path) = true

module _ {V : Type 0} where
  abbrev pub record_count : PartitionData V → ℕ
  record_count p = p.cache.record_count

  abbrev pub limit_bytes : PartitionData V → ℕ
  limit_bytes p = p.cache.limit_bytes

  abbrev pub spill_path : PartitionData V → String
  spill_path p = p.cache.spill_path

  abbrev pub has_spill : PartitionData V → Bool
  has_spill p = is_some p.cache.spilled_file

  -- A cache's error drops the partition that was being made.
  abbrev pub with_cache :
      {A B : Type 0}
      → (PartitionCache V → A → B)
      → Outcome A × PartitionCache V × Disk
      → Outcome B × Disk
  with_cache f (err e, c, d) = (err e, d)
  with_cache f (ok a, c, d) = (ok (f c a), d)

module _ {V : Type 0} (json : Json V) where
  abbrev pub empty : ℕ → ℕ → String → PartitionData V
  empty id limit path = record { partition_id = id; cache = new_cache json limit path }

  unfoldable pub from_records : ℕ → ℕ → String → List V → Action (PartitionData V)
  from_records id limit path records d =
      with_cache (λ c _. record { partition_id = id; cache = c })
        (push_batch json records (new_cache json limit path) d)

  -- The limit, the spill path and the records; the partition is used up.
  unfoldable pub into_parts : PartitionData V → Action (ℕ × String × List V)
  into_parts p d =
      with_cache (λ c records. (p.cache.limit_bytes, p.cache.spill_path, records))
        (drain_all json p.cache d)

  -- What `map`, `filter` and `flat_map` do with each partition: its records are taken out, made
  -- anew, and put into a partition with the same number, limit and spill path.
  unfoldable pub remake : (List V → Outcome (List V)) → PartitionData V → Action (PartitionData V)
  unfolding into_parts from_records
  remake f p = do
    (limit, path, records) ← into_parts p
    made ← lift (f records)
    from_records p.partition_id limit path made

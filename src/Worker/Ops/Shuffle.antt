-- ===== src/Worker/Ops/Shuffle.antt =====
-- `ShuffleByKeyOp`: src/worker/ops/shuffle.rs.
pub mod Buckets
pub mod Scattered
use Prim.Native.String.{◌++◌ as append}
use distributed_processing_e.Base.{
  ℕ, zero, suc, ◌%◌, ◌-◌, ◌^◌, eqb, String, Option, none, some, List, [], ◌∷◌, ◌++◌, if◌then◌else◌,
}
use distributed_processing_e.Base.Decimal.{show_nat}
use distributed_processing_e.Base.Range.{enumerate}
use distributed_processing_e.Worker.Action.{Action, pure, fail, each, ◌>>=◌}
use distributed_processing_e.Worker.Ops.Data.{
  PartitionData, limit_bytes, spill_path, from_records, into_parts,
}
use distributed_processing_e.Worker.Ops.Value.{View, Serde, Std}

-- `vec![Vec::new(); n]`
unfoldable pub new_buckets {ℓ} : {A : Type ℓ} → ℕ → List (List A)
new_buckets zero = []
new_buckets (suc n) = [] ∷ new_buckets n

-- `buckets[target].push(rec)`
unfoldable pub push_at {ℓ} : {A : Type ℓ} → ℕ → A → List (List A) → List (List A)
push_at i x [] = []
push_at zero x (b ∷ bs) = (b ++ x ∷ []) ∷ bs
push_at (suc i) x (b ∷ bs) = b ∷ push_at i x bs

-- The limit of the first partition, or `usize::MAX`.
abbrev pub first_limit : {V : Type 0} → List (PartitionData V) → ℕ
first_limit [] = 2 ^ 64 - 1
first_limit (p ∷ ps) = limit_bytes p

module _ {V M N : Type 0} (serde : Serde V M N) (std : Std) where
  abbrev hash_field : View V M N → ℕ
  hash_field (View.string s) = std.hash_str s
  hash_field (View.number n) = std.hash_str (serde.number_text n)
  hash_field (View.bool b) = std.hash_bool b
  hash_field _ = std.hash_i32 0

  abbrev hash_found : Option V → ℕ
  hash_found none = std.hash_i32 0
  hash_found (some v) = hash_field (serde.view v)

  unfoldable pub compute_bucket : V → String → ℕ → ℕ
  compute_bucket value key total =
      (elim (serde.view value) [
        | View.object m ↦ hash_found (serde.get m key)
        | _ ↦ std.hash_i32 0
      ])
      % total

  -- The directory of the first partition's spill path, or the one for temporary files.
  abbrev or_temp : Option String → String
  or_temp none = std.temp_dir
  or_temp (some dir) = dir

  abbrev pub spill_base : List (PartitionData V) → String
  spill_base [] = std.temp_dir
  spill_base (p ∷ ps) = or_temp (std.parent (spill_path p))

  unfoldable pub scatter : String → ℕ → List V → List (List V) → List (List V)
  unfolding push_at compute_bucket
  scatter key total [] buckets = buckets
  scatter key total (rec ∷ records) buckets =
      scatter key total records (push_at (compute_bucket rec key total) rec buckets)

  unfoldable pub scatter_all :
      String → ℕ → List (PartitionData V) → List (List V) → Action (List (List V))
  unfolding into_parts scatter
  scatter_all key total [] buckets = pure buckets
  scatter_all key total (p ∷ partitions) buckets = do
    (limit, path, records) ← into_parts serde.json p
    scatter_all key total partitions (scatter key total records buckets)

  abbrev pub bucket_path : String → ℕ → String
  bucket_path base idx = std.join base (append "bucket-" (append (show_nat idx) ".bin"))

  abbrev pub bucket_partition : ℕ → String → ℕ × List V → Action (PartitionData V)
  bucket_partition limit base (idx, records) =
      from_records serde.json idx limit (bucket_path base idx) records

  unfoldable pub execute : String → ℕ → List (PartitionData V) → Action (List (PartitionData V))
  unfolding new_buckets scatter_all each from_records show_nat
  execute key total_partitions partitions =
      if eqb total_partitions 0 then fail "shuffle: total_partitions must be > 0" else do
        buckets ← scatter_all key total_partitions partitions (new_buckets total_partitions)
        each (bucket_partition (first_limit partitions) (spill_base partitions))
            (enumerate 0 buckets)

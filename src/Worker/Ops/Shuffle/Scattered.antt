-- ===== src/Worker/Ops/Shuffle/Scattered.antt =====
-- What `ShuffleByKeyOp` of src/worker/ops/shuffle.rs makes of the partitions.
use text.Mathlib.TextLemmas.{append_cancel_left, append_cancel_right, cons-append}
use Prim.Native.Char.{code}
use Prim.Native.String.{◌++◌ as append}
use mathlib.Core.Path.{subst}
use distributed_processing_e.Base.{
  All, All-append, All-keep, ℕ, zero, suc, ◌≤◌, ◌<◌, ◌≡◌, ◌≢◌, refl, sym, ap, ◌∙◌, eqb, false,
  String, none, List, [], ◌∷◌, map, keep, arith,
}
use distributed_processing_e.Base.Decimal.{show_nat, show_nat_inj}
use distributed_processing_e.Base.Eq.{string_eq}
use distributed_processing_e.Base.Map.{get}
use distributed_processing_e.Base.Outcome.{ok}
use distributed_processing_e.Base.Range.{range, enumerate}
use distributed_processing_e.Worker.Action.{each}
use distributed_processing_e.Worker.Ops.Data.{PartitionData, spill_path}
use distributed_processing_e.Worker.Ops.Data.Carried.{
  AllCarry, Apart, frame, into_parts-Carries, from_records-Carries, AllCarry-files, AllCarry-Exact,
  absent_after, concat,
}
use distributed_processing_e.Worker.Ops.Shuffle.{
  new_buckets, compute_bucket, scatter, scatter_all, bucket_path, bucket_partition, first_limit,
  spill_base, execute,
}
use distributed_processing_e.Worker.Ops.Shuffle.Buckets.{
  bucket_of, scatter-append, scatter-bucket_of, compute_bucket-lt,
}
use distributed_processing_e.Worker.Ops.Value.{Serde, Std}
use distributed_processing_e.Worker.Partition.Frame.{Holds-files}
use distributed_processing_e.Worker.Partition.Lines.{IsJson, Exact}
use distributed_processing_e.Worker.Partition.RoundTrip.{Files, sound}

-- A path that does not begin at the root: `Path::join` puts it behind the base.
abbrev pub IsRelative : String → Type 0
IsRelative String.[] = Unit
IsRelative (String.◌∷◌ c s) = eqb (code c) b'/' ≡ false

bucket-IsRelative : (s : String) → IsRelative (append "bucket-" s)
bucket-IsRelative s = subst IsRelative (sym (cons-append "b" "ucket-" s)) refl

module _ {V M N : Type 0} (serde : Serde V M N) (std : Std) (laws : IsJson serde.json) where
  scatter_all-AllCarry :
      (key : String) (total : ℕ) (ps : List (PartitionData V)) (files : Files) (vss : List (List V))
      (buckets : List (List V))
      → Apart serde.json ps
      → AllCarry serde.json ps files vss
      → (files' : Files) × (scatter_all serde std key total ps buckets (sound files)
          ≡ (ok (scatter serde std key total (concat vss) buckets), sound files'))
        × ((q : String) → get files q ≡ none → get files' q ≡ none)
  unfolding scatter_all scatter
  scatter_all-AllCarry key total [] files [] buckets apart h = (files, refl, λ q absent. absent)
  scatter_all-AllCarry key total [] files (vs ∷ vss) buckets apart h = absurd h
  scatter_all-AllCarry key total (p ∷ ps) files [] buckets apart h = absurd h
  scatter_all-AllCarry key total (p ∷ ps) files (vs ∷ vss) buckets apart h =
      let (files₁, taken, gone, others) = into_parts-Carries serde.json laws p files vs h.0 in
      let (files₂, rest, absent) =
        scatter_all-AllCarry key total ps files₁ vss (scatter serde std key total vs buckets)
          apart.1
          (AllCarry-files serde.json laws ps files files₁ vss (spill_path p) apart.0 others h.1) in
      (
        files₂,
        rw taken (
            rest
            ∙ ap (λ bs. (ok bs, sound files₂))
                (sym (scatter-append serde std key total vs (concat vss) buckets))),
        λ q a. absent q (absent_after files files₁ (spill_path p) q gone others a),
      )

  module _ (limit : ℕ) (base : String)
      (join_inj : (a b : String)
        → IsRelative a
        → IsRelative b
        → std.join base a ≡ std.join base b
        → a ≡ b) where
    path_inj : (i j : ℕ) → bucket_path serde std base i ≡ bucket_path serde std base j → i ≡ j
    path_inj i j e = show_nat_inj i j (
        append_cancel_right (show_nat i) (show_nat j) ".bin" (
          append_cancel_left "bucket-" _ _
            (join_inj _ _ (bucket-IsRelative _) (bucket-IsRelative _) e)))

    abbrev bucket_frame : ℕ × List V → ℕ × ℕ × String
    bucket_frame e = (e.0, limit, bucket_path serde std base e.0)

    each-buckets :
        (idx : ℕ) (buckets : List (List V)) (files : Files)
        → All (All (Exact serde.json)) buckets
        → ((i : ℕ) → idx ≤ i → get files (bucket_path serde std base i) ≡ none)
        → (ps : List (PartitionData V)) × (files' : Files) × (each
              (bucket_partition serde std limit base)
              (enumerate idx buckets)
              (sound files)
            ≡ (ok ps, sound files'))
          × AllCarry serde.json ps files' buckets
          × (map frame ps ≡ map bucket_frame (enumerate idx buckets))
          × ((i : ℕ)
              → i < idx
              → get files' (bucket_path serde std base i)
                ≡ get files (bucket_path serde std base i))
    unfolding each
    each-buckets idx [] files reads absent = ([], files, refl, tt, refl, λ i lt. refl)
    each-buckets idx (b ∷ buckets) files reads absent =
        let (p, files₁, made, h₁, frame₁, others₁) =
          from_records-Carries serde.json laws idx limit (bucket_path serde std base idx) b files
            reads.0 (absent idx (omega arith)) in
        let (ps, files₂, rest, h₂, frames, others₂) =
          each-buckets (suc idx) buckets files₁ reads.1 (λ i le.
            others₁ _ (λ e. not_same idx i (omega arith) (path_inj idx i e))
            ∙ absent i (omega arith)) in
        (
          p ∷ ps,
          files₂,
          rw (made, rest) refl,
          (
            Holds-files serde.json p.cache files₁ files₂ b
                (subst (λ q. get files₂ q ≡ get files₁ q) (sym (ap (λ t. t.2) frame₁))
                  (others₂ idx (omega arith)))
                h₁,
            h₂,
          ),
          ap (λ t. t ∷ map frame ps) frame₁ ∙ ap (λ ts. bucket_frame (idx, b) ∷ ts) frames,
          λ i lt.
              others₂ i (omega arith)
              ∙ others₁ _ (λ e. not_same i idx (omega arith) (sym (path_inj idx i e))),
        )
      where
        not_same : (i j : ℕ) → i < j → i ≢ j
        not_same i j lt e = omega arith

  abbrev pub numbered : ℕ → String → ℕ → ℕ × ℕ × String
  numbered limit base i = (i, limit, bucket_path serde std base i)

  frames-range :
      (limit : ℕ) (base : String) (f : ℕ → List V) (start n : ℕ)
      → map (λ (e : ℕ × List V). numbered limit base e.0) (enumerate start (map f (range start n)))
        ≡ map (numbered limit base) (range start n)
  frames-range limit base f start zero = refl
  frames-range limit base f start (suc n) =
      ap (λ ts. numbered limit base start ∷ ts) (frames-range limit base f (suc start) n)

  concat-Exact :
      (vss : List (List V)) → All (All (Exact serde.json)) vss → All (Exact serde.json) (concat vss)
  concat-Exact [] h = tt
  concat-Exact (vs ∷ vss) h =
      All-append (Exact serde.json) vs (concat vss) h.0 (concat-Exact vss h.1)

  buckets-Exact :
      (key : String) (total : ℕ) (records : List V)
      → All (Exact serde.json) records
      → (start n : ℕ)
      → All (All (Exact serde.json)) (map (bucket_of serde std key total records) (range start n))
  buckets-Exact key total records h start zero = tt
  buckets-Exact key total records h start (suc n) =
      (All-keep (Exact serde.json) _ records h, buckets-Exact key total records h (suc start) n)

  -- While the disk does not fail, the partitions spill to different files, their records are read back
  -- from JSON as they were written, `Path::join` keeps different relative paths behind the buckets'
  -- directory apart, and none of the buckets has a file yet: a shuffle into at least one partition succeeds and gives that many partitions, numbered
  -- from zero. Each holds those records of all inputs whose key hashes to its number, in order, and
  -- every record hashes to one of the numbers.
  pub execute_scatters :
      (key : String) (total : ℕ) (ps : List (PartitionData V)) (files : Files) (vss : List (List V))
      → total ≢ 0
      → ((a b : String)
          → IsRelative a
          → IsRelative b
          → std.join (spill_base serde std ps) a ≡ std.join (spill_base serde std ps) b
          → a ≡ b)
      → ((i : ℕ) → get files (bucket_path serde std (spill_base serde std ps) i) ≡ none)
      → Apart serde.json ps
      → AllCarry serde.json ps files vss
      → (ps' : List (PartitionData V)) × (files' : Files) × (execute serde std key total ps
            (sound files)
          ≡ (ok ps', sound files'))
        × AllCarry serde.json ps' files' (
            map
              (λ i. keep (λ r. eqb (compute_bucket serde std r key total) i) (concat vss))
              (range 0 total))
        × (map frame ps'
            ≡ map (numbered (first_limit ps) (spill_base serde std ps)) (range 0 total))
        × ((r : V) → compute_bucket serde std r key total < total)
  unfolding execute
  execute_scatters key total ps files vss positive inj absent apart h =
      let (files₁, scattered, gone) =
        scatter_all-AllCarry key total ps files vss (new_buckets total) apart h in
      let buckets = map (bucket_of serde std key total (concat vss)) (range 0 total) in
      let (ps', files₂, made, h', frames, others) =
        each-buckets (first_limit ps) (spill_base serde std ps) inj 0 buckets files₁
          (buckets-Exact key total (concat vss)
            (concat-Exact vss (AllCarry-Exact serde.json ps files vss h)) 0 total)
          (λ i le. gone _ (absent i)) in
      (
        ps',
        files₂,
        rw
            (
              test_positive total positive,
              scattered,
              scatter-bucket_of serde std key total (concat vss),
            )
            made,
        h',
        frames
            ∙ frames-range (first_limit ps) (spill_base serde std ps)
                (bucket_of serde std key total (concat vss)) 0 total,
        λ r. compute_bucket-lt serde std key total r positive,
      )
    where
      test_positive : (n : ℕ) → n ≢ 0 → eqb n 0 ≡ false
      test_positive n h = ground arith

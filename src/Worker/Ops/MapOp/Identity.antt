-- ===== src/Worker/Ops/MapOp/Identity.antt =====
-- `MapOp` of src/worker/ops/map.rs with the function "identity".
use distributed_processing_e.Base.{
  ℕ, zero, suc, ◌+◌, ◌<◌, ◌≡◌, refl, sym, ap, ◌∙◌, String, List, [], ◌∷◌, map, some, Among, inl,
  inr, arith,
}
use distributed_processing_e.Base.Outcome.{Outcome, ok, map_all, ◌>>=◌}
use distributed_processing_e.Worker.Ops.Data.{PartitionData}
use distributed_processing_e.Worker.Ops.Data.Carried.{
  AllCarry, AllCarry-Exact, Apart, Makes, frame, each-remake,
}
use distributed_processing_e.Worker.Ops.MapOp.{
  apply_entries, apply_case, apply_fn, apply_record, execute,
}
use distributed_processing_e.Worker.Ops.Value.{View, Serde, Std, IsSerde}
use distributed_processing_e.Worker.Partition.Lines.{IsJson}
use distributed_processing_e.Worker.Partition.RoundTrip.{Files, sound}

map_all-ok :
    {A : Type 0} (f : A → Outcome A) (xs : List A)
    → ((x : A) → Among x xs → f x ≡ ok x)
    → map_all f xs ≡ ok xs
unfolding map_all
map_all-ok f [] same = refl
map_all-ok f (x ∷ xs) same =
    ap (λ o. o >>= λ y. map_all f xs >>= λ ys. ok (y ∷ ys)) (same x (inl refl))
    ∙ ap (λ o. o >>= λ ys. ok (x ∷ ys)) (map_all-ok f xs (λ y m. same y (inr m)))

module _ {V M N : Type 0} (serde : Serde V M N) (std : Std) (laws : IsSerde serde) where
  apply_entries-ok :
      (f : V → Outcome V) (m : M) (entries : List (String × V))
      → ((k : String) (v : V) → Among (k, v) entries → (f v ≡ ok v) × (serde.get m k ≡ some v))
      → apply_entries serde std f m entries ≡ ok m
  unfolding apply_entries
  apply_entries-ok f m [] same = refl
  apply_entries-ok f m ((k, v) ∷ entries) same =
      let now = same k v (inl refl) in
      ap (λ o. o >>= λ w. apply_entries serde std f (serde.insert m k w) entries) now.0
      ∙ ap (λ m. apply_entries serde std f m entries) (laws.insert_same m k v now.1)
      ∙ apply_entries-ok f m entries (λ j u among. same j u (inr among))

  apply_case-identity :
      (f : V → Outcome V) (v : V) (x : View V M N)
      → serde.view v ≡ x
      → ((w : V) → serde.depth w < serde.depth v → f w ≡ ok w)
      → apply_case serde std f "identity" v x ≡ ok v
  apply_case-identity f v View.null e same = refl
  apply_case-identity f v (View.bool b) e same = refl
  apply_case-identity f v (View.number n) e same =
      ap (λ v. ok v) (ap serde.make (sym e) ∙ laws.make-view v)
  apply_case-identity f v (View.string s) e same =
      ap (λ v. ok v) (ap serde.make (sym e) ∙ laws.make-view v)
  apply_case-identity f v (View.array arr) e same =
      ap (λ o. o >>= λ out. ok (serde.make (View.array out)))
        (map_all-ok f arr (λ w m. same w (laws.depth_array v w arr e m)))
      ∙ ap (λ v. ok v) (ap serde.make (sym e) ∙ laws.make-view v)
  apply_case-identity f v (View.object m) e same =
      ap (λ o. o >>= λ m'. ok (serde.make (View.object m')))
        (apply_entries-ok f m (serde.entries m)
          (λ k w among. (same w (laws.depth_object v w k m e among), laws.entries-get m k w among)))
      ∙ ap (λ v. ok v) (ap serde.make (sym e) ∙ laws.make-view v)

  apply_fn-identity :
      (fuel : ℕ) (v : V) → serde.depth v < fuel → apply_fn serde std fuel v "identity" ≡ ok v
  unfolding apply_fn
  apply_fn-identity zero v lt = absurd (omega arith)
  apply_fn-identity (suc fuel) v lt =
      apply_case-identity (λ w. apply_fn serde std fuel w "identity") v (serde.view v) refl
        (λ w deeper. apply_fn-identity fuel w (omega arith))

  identity-Makes :
      (vss : List (List V)) → Makes (map_all (apply_record serde std "identity")) vss vss
  identity-Makes [] = tt
  identity-Makes (vs ∷ vss) = (
    map_all-ok (apply_record serde std "identity") vs
        (λ v m. apply_fn-identity (serde.depth v + 1) v (omega arith)),
    identity-Makes vss,
  )

  -- While the disk does not fail, the partitions spill to different files, and their records are read
  -- back from JSON as they were written: the map with the function
  -- "identity" succeeds, and each partition keeps its number, limit, spill path and records, however
  -- the records nest.
  pub execute-identity :
      IsJson serde.json
      → (ps : List (PartitionData V)) (files : Files) (vss : List (List V)) → Apart serde.json ps
      → AllCarry serde.json ps files vss
      → (ps' : List (PartitionData V)) × (files' : Files) × (execute serde std "identity" ps
            (sound files)
          ≡ (ok ps', sound files'))
        × AllCarry serde.json ps' files' vss
        × (map frame ps' ≡ map frame ps)
  unfolding execute
  execute-identity json ps files vss apart h =
      let (ps', files', runs, h', frames, others) =
        each-remake serde.json json (map_all (apply_record serde std "identity")) ps files vss vss
          (identity-Makes vss) (AllCarry-Exact serde.json ps files vss h) apart h in
      (ps', files', runs, h', frames)

-- ===== src/Worker/Ops/Data/Carried.antt =====
-- What a partition of src/worker/ops/mod.rs carries from one operator to the next, while the disk does
-- not fail: values that `serde_json` reads back as it wrote them.
use mathlib.Core.Path.{subst}
use distributed_processing_e.Base.{
  ℕ, ◌≡◌, ◌≢◌, refl, sym, ap, ◌∙◌, String, none, List, [], ◌∷◌, ◌++◌, map, All, Bool-cases, inl,
  inr, false_not_true,
}
use distributed_processing_e.Base.Eq.{◌==◌, string_eq}
use distributed_processing_e.Base.Map.{get}
use distributed_processing_e.Base.Outcome.{Outcome, ok}
use distributed_processing_e.Worker.Action.{each}
use distributed_processing_e.Worker.Ops.Data.{
  PartitionData, limit_bytes, spill_path, with_cache, from_records, into_parts, remake,
}
use distributed_processing_e.Worker.Partition.{Json, new_cache}
use distributed_processing_e.Worker.Partition.Frame.{
  Holds-files, push_batch-Holds-others, drain_all-Holds-others,
}
use distributed_processing_e.Worker.Partition.Lines.{IsJson, Exact}
use distributed_processing_e.Worker.Partition.RoundTrip.{Files, sound, Holds, new_cache-Holds}

-- What stays the same of a partition when its records are made anew.
abbrev pub frame : {V : Type 0} → PartitionData V → ℕ × ℕ × String
frame p = (p.partition_id, limit_bytes p, spill_path p)

abbrev pub concat : {A : Type 0} → List (List A) → List A
concat [] = []
concat (xs ∷ xss) = xs ++ concat xss

pub absent_after :
    (files files' : Files) (path q : String)
    → get files' path ≡ none
    → ((q : String) → path ≢ q → get files' q ≡ get files q)
    → get files q ≡ none
    → get files' q ≡ none
absent_after files files' path q gone others absent = elim (Bool-cases (path == q)) [
  | inl same ↦ ap (get files') (sym ((string_eq.same_iff path q).0 same)) ∙ gone
  | inr other ↦
      others q (λ e. false_not_true (sym other ∙ (string_eq.same_iff path q).1 e)) ∙ absent
]

-- Each list of records is made into the other one.
abbrev pub Makes :
    {V : Type 0} → (List V → Outcome (List V)) → List (List V) → List (List V) → Type 0
Makes f [] [] = Unit
Makes f [] (ws ∷ wss) = ⊥
Makes f (vs ∷ vss) [] = ⊥
Makes f (vs ∷ vss) (ws ∷ wss) = (f vs ≡ ok ws) × Makes f vss wss

module _ {V : Type 0} (json : Json V) where
  abbrev pub Carries : PartitionData V → Files → List V → Type 0
  Carries p files vs = Holds json p.cache files vs

  abbrev pub AllCarry : List (PartitionData V) → Files → List (List V) → Type 0
  AllCarry [] files [] = Unit
  AllCarry [] files (vs ∷ vss) = ⊥
  AllCarry (p ∷ ps) files [] = ⊥
  AllCarry (p ∷ ps) files (vs ∷ vss) = Carries p files vs × AllCarry ps files vss

  pub AllCarry-Exact :
      (ps : List (PartitionData V)) (files : Files) (vss : List (List V))
      → AllCarry ps files vss
      → All (All (Exact json)) vss
  AllCarry-Exact [] files [] h = tt
  AllCarry-Exact [] files (vs ∷ vss) h = absurd h
  AllCarry-Exact (p ∷ ps) files [] h = absurd h
  AllCarry-Exact (p ∷ ps) files (vs ∷ vss) h = (h.0.exact, AllCarry-Exact ps files vss h.1)

  -- No two of the partitions spill to one file.
  abbrev pub Apart : List (PartitionData V) → Type 0
  Apart [] = Unit
  Apart (p ∷ ps) = All (λ q. spill_path p ≢ spill_path q) ps × Apart ps

  module _ (laws : IsJson json) where
    pub into_parts-Carries :
        (p : PartitionData V) (files : Files) (vs : List V)
        → Carries p files vs
        → (files' : Files) × (into_parts json p (sound files)
            ≡ (ok (limit_bytes p, spill_path p, vs), sound files'))
          × (get files' (spill_path p) ≡ none)
          × ((q : String) → spill_path p ≢ q → get files' q ≡ get files q)
    unfolding into_parts
    into_parts-Carries p files vs h =
        let (c', files', drains, path, absent, others) =
          drain_all-Holds-others json laws p.cache files vs h in
        (
          files',
          ap (with_cache (λ c records. (p.cache.limit_bytes, p.cache.spill_path, records))) drains,
          absent,
          others,
        )

    pub from_records-Carries :
        (id limit : ℕ) (path : String) (vs : List V) (files : Files)
        → All (Exact json) vs
        → get files path ≡ none
        → (p : PartitionData V) × (files' : Files) × (from_records json id limit path vs
              (sound files)
            ≡ (ok p, sound files'))
          × Carries p files' vs
          × (frame p ≡ (id, limit, path))
          × ((q : String) → path ≢ q → get files' q ≡ get files q)
    unfolding from_records
    from_records-Carries id limit path vs files reads absent =
        let (c, files', pushes, h, same_path, same_limit, others) =
          push_batch-Holds-others json vs (new_cache json limit path) files [] reads
            (new_cache-Holds json limit path files absent) in
        (
          record { partition_id = id; cache = c },
          files',
          ap (with_cache (λ c _. record { partition_id = id; cache = c })) pushes,
          h,
          ap (λ l. (id, l, c.spill_path)) same_limit ∙ ap (λ s. (id, limit, s)) same_path,
          others,
        )

    pub remake-Carries :
        (f : List V → Outcome (List V)) (p : PartitionData V) (files : Files) (vs ws : List V)
        → f vs ≡ ok ws
        → All (Exact json) ws
        → Carries p files vs
        → (p' : PartitionData V) × (files' : Files) × (remake json f p (sound files)
            ≡ (ok p', sound files'))
          × Carries p' files' ws
          × (frame p' ≡ frame p)
          × ((q : String) → spill_path p ≢ q → get files' q ≡ get files q)
    unfolding remake
    remake-Carries f p files vs ws made reads h =
        let (files₁, taken, absent, others₁) = into_parts-Carries p files vs h in
        let (p', files₂, put, h₂, same, others₂) =
          from_records-Carries p.partition_id (limit_bytes p) (spill_path p) ws files₁ reads
            absent in
        (p', files₂, rw (taken, made) put, h₂, same, λ q other. others₂ q other ∙ others₁ q other)

    pub AllCarry-files :
        (ps : List (PartitionData V)) (files files' : Files) (vss : List (List V)) (path : String)
        → All (λ q. path ≢ spill_path q) ps
        → ((q : String) → path ≢ q → get files' q ≡ get files q)
        → AllCarry ps files vss
        → AllCarry ps files' vss
    AllCarry-files [] files files' [] path apart others h = tt
    AllCarry-files [] files files' (vs ∷ vss) path apart others h = absurd h
    AllCarry-files (p ∷ ps) files files' [] path apart others h = absurd h
    AllCarry-files (p ∷ ps) files files' (vs ∷ vss) path apart others h = (
      Holds-files json p.cache files files' vs (others (spill_path p) apart.0) h.0,
      AllCarry-files ps files files' vss path apart.1 others h.1,
    )

    pub All-flip :
        (ps : List (PartitionData V)) (path : String)
        → All (λ q. path ≢ spill_path q) ps
        → All (λ q. spill_path q ≢ path) ps
    All-flip [] path h = tt
    All-flip (p ∷ ps) path h = (λ e. h.0 (sym e), All-flip ps path h.1)

    -- The records of every partition are made anew; the partitions keep their frames.
    pub each-remake :
        (f : List V → Outcome (List V)) (ps : List (PartitionData V)) (files : Files)
        (vss wss : List (List V))
        → Makes f vss wss
        → All (All (Exact json)) wss
        → Apart ps
        → AllCarry ps files vss
        → (ps' : List (PartitionData V)) × (files' : Files) × (each (remake json f) ps (sound files)
            ≡ (ok ps', sound files'))
          × AllCarry ps' files' wss
          × (map frame ps' ≡ map frame ps)
          × ((q : String) → All (λ p. spill_path p ≢ q) ps → get files' q ≡ get files q)
    unfolding each
    each-remake f [] files [] [] made reads apart h = ([], files, refl, tt, refl, λ q other. refl)
    each-remake f [] files [] (ws ∷ wss) made reads apart h = absurd made
    each-remake f [] files (vs ∷ vss) wss made reads apart h = absurd h
    each-remake f (p ∷ ps) files [] wss made reads apart h = absurd h
    each-remake f (p ∷ ps) files (vs ∷ vss) [] made reads apart h = absurd made
    each-remake f (p ∷ ps) files (vs ∷ vss) (ws ∷ wss) made reads apart h =
        let (p', files₁, first, h₁, frame₁, others₁) =
          remake-Carries f p files vs ws made.0 reads.0 h.0 in
        let (ps', files₂, rest, h₂, frames, others₂) =
          each-remake f ps files₁ vss wss made.1 reads.1 apart.1
            (AllCarry-files ps files files₁ vss (spill_path p) apart.0 others₁ h.1) in
        let path : spill_path p' ≡ spill_path p = ap (λ t. t.2) frame₁ in
        (
          p' ∷ ps',
          files₂,
          rw (first, rest) refl,
          (
            Holds-files json p'.cache files₁ files₂ ws
                (others₂ (spill_path p') (
                  subst (λ s. All (λ q. spill_path q ≢ s) ps) (sym path)
                    (All-flip ps (spill_path p) apart.0)))
                h₁,
            h₂,
          ),
          ap (λ t. t ∷ map frame ps') frame₁ ∙ ap (λ ts. frame p ∷ ts) frames,
          λ q other. others₂ q other.1 ∙ others₁ q other.0,
        )

-- ===== src/Worker/Ops/Reduce/Grouping.antt =====
-- The groups of a `ReduceByKeyOp` of src/worker/ops/reduce.rs.
use mathlib.Core.Path.{subst}
use mathlib.Core.Option.{some-injective, none-ne-some}
use mathlib.Core.List.{cons-ne-nil, append_assoc, append-nil}
use distributed_processing_e.Base.{
  All-split, ◌≢◌, ◌≡◌, refl, sym, ap, ◌∙◌, String, none, some, List, [], ◌∷◌, ◌++◌, map, keep, All,
  Bool-cases, inl, inr, Bool,
}
use distributed_processing_e.Base.Eq.{◌==◌, string_eq}
use distributed_processing_e.Base.Map.{
  HashMap, get, insert, get-insert, entry_of, entry_of-snoc, Distinct, insert-Distinct,
  Distinct-All,
}
use distributed_processing_e.Base.Outcome.{ok}
use distributed_processing_e.Worker.Ops.Data.{PartitionData, limit_bytes, spill_path}
use distributed_processing_e.Worker.Ops.Data.Carried.{
  Carries, AllCarry, Apart, frame, into_parts-Carries, from_records-Carries, AllCarry-files,
  absent_after, concat,
}
use distributed_processing_e.Worker.Ops.Reduce.{
  ReducerKind, parse, group_of, key_of, group_records, group_partitions, group_record,
  reduce_by_key,
}
use distributed_processing_e.Worker.Ops.Value.{Serde, Std}
use distributed_processing_e.Worker.Partition.Lines.{IsJson, Exact}
use distributed_processing_e.Worker.Partition.RoundTrip.{Files, sound}

All-map :
    {A B : Type 0} (P : B → Type 0) (f : A → B) (xs : List A)
    → All (λ x. P (f x)) xs
    → All P (map f xs)
All-map P f [] h = tt
All-map P f (x ∷ xs) h = (h.0, All-map P f xs h.1)

keep-append :
    {A : Type 0} (p : A → Bool) (xs ys : List A) → keep p (xs ++ ys) ≡ keep p xs ++ keep p ys
keep-append p [] ys = refl
keep-append p (x ∷ xs) ys = elim (Bool-cases (p x)) [
  | inl kept ↦ rw kept (ap (λ rest. x ∷ rest) (keep-append p xs ys))
  | inr dropped ↦ rw dropped (keep-append p xs ys)
]

module _ {V M N : Type 0} (serde : Serde V M N) (std : Std) (key : String) (text : V → String) where
  -- The records with a key, in order.
  abbrev pub with_key : List V → String → List V
  with_key records k = keep (λ r. text r == k) records

  -- Every record is an object whose field is the text.
  abbrev pub AllText : List V → Type 0
  AllText records = All (λ r. key_of serde std key r ≡ some (text r)) records

  -- One group for each key that occurs, with all the records of the key.
  pub record IsGrouping (groups : HashMap String (List V)) (records : List V) : Type 0 where
    pub once : Distinct groups
    pub group : (k : String) → get groups k ≡ entry_of (with_key records k)

  group_of-entry_of : (xs : List V) → group_of serde std (entry_of xs) ≡ xs
  group_of-entry_of [] = refl
  group_of-entry_of (x ∷ xs) = refl

  add-group :
      (m : HashMap String (List V)) (seen : List V) (r : V)
      → IsGrouping m seen
      → (k : String)
      → get (insert m (text r) (group_of serde std (get m (text r)) ++ r ∷ [])) k
        ≡ entry_of (with_key (seen ++ r ∷ []) k)
  add-group m seen r h k =
      get-insert m (text r) (group_of serde std (get m (text r)) ++ r ∷ []) k
      ∙ elim (Bool-cases (text r == k)) [
        | inl same ↦ rw same (
            ap (λ g. some (g ++ r ∷ []))
              (ap (group_of serde std) (h.group (text r))
                ∙ group_of-entry_of (with_key seen (text r))
                ∙ ap (with_key seen) ((string_eq.same_iff (text r) k).0 same))
            ∙ entry_of-snoc (with_key seen k) r
            ∙ ap entry_of (sym (keep-append (λ r. text r == k) seen (r ∷ []) ∙ rw same refl)))
        | inr other ↦ rw other (
            h.group k
            ∙ ap entry_of (
                sym (append-nil (with_key seen k))
                ∙ sym (keep-append (λ r. text r == k) seen (r ∷ []) ∙ rw other refl)))
      ]

  group_records-IsGrouping :
      (records seen : List V) (m : HashMap String (List V))
      → AllText records
      → IsGrouping m seen
      → (m' : HashMap String (List V)) × (group_records serde std key records m ≡ ok m')
        × IsGrouping m' (seen ++ records)
  unfolding group_records
  group_records-IsGrouping [] seen m all h =
      (m, refl, subst (IsGrouping m) (sym (append-nil seen)) h)
  group_records-IsGrouping (r ∷ records) seen m all h =
      let (m', runs, h') =
        group_records-IsGrouping records (seen ++ r ∷ [])
          (insert m (text r) (group_of serde std (get m (text r)) ++ r ∷ [])) all.1
          (record { once = insert-Distinct m (text r) _ h.once; group = add-group m seen r h }) in
      (
        m',
        rw (group_records, all.0) runs,
        subst (IsGrouping m') (append_assoc seen (r ∷ []) records) h',
      )

  -- The record of each text that occurs is read back from JSON as it is written.
  abbrev pub AllExact : String → ReducerKind → List V → Type 0
  AllExact reducer kind records =
      (k : String)
      → with_key records k ≢ []
      → Exact serde.json (group_record serde std key reducer kind (k, with_key records k))

  entry_of-some : (xs us : List V) → entry_of xs ≡ some us → (xs ≢ []) × (xs ≡ us)
  entry_of-some [] us e = absurd (none-ne-some us e)
  entry_of-some (x ∷ xs) us e = (λ h. cons-ne-nil x xs h, some-injective _ _ e)

  groups-Exact :
      (reducer : String) (kind : ReducerKind) (groups : HashMap String (List V)) (records : List V)
      → IsGrouping groups records
      → AllExact reducer kind records
      → All (Exact serde.json) (map (group_record serde std key reducer kind) groups)
  groups-Exact reducer kind groups records g reads =
      All-map (Exact serde.json) (group_record serde std key reducer kind) groups (
        Distinct-All (λ entry. Exact serde.json (group_record serde std key reducer kind entry))
          groups g.once
          (λ k us there.
            let (some_there, same) =
              entry_of-some (with_key records k) us (sym (g.group k) ∙ there) in
            subst (λ us. Exact serde.json (group_record serde std key reducer kind (k, us))) same
              (reads k some_there)))

  module _ (laws : IsJson serde.json) where
    group_partitions-IsGrouping :
        (ps : List (PartitionData V)) (files : Files) (vss : List (List V)) (seen : List V)
        (m : HashMap String (List V))
        → Apart serde.json ps
        → AllCarry serde.json ps files vss
        → AllText (concat vss)
        → IsGrouping m seen
        → (m' : HashMap String (List V)) × (files' : Files) × (group_partitions serde std key ps m
              (sound files)
            ≡ (ok m', sound files'))
          × IsGrouping m' (seen ++ concat vss)
          × All (λ p. get files' (spill_path p) ≡ none) ps
          × ((q : String) → get files q ≡ none → get files' q ≡ none)
    unfolding group_partitions
    group_partitions-IsGrouping [] files [] seen m apart h all g =
        (m, files, refl, subst (IsGrouping m) (sym (append-nil seen)) g, tt, λ q absent. absent)
    group_partitions-IsGrouping [] files (vs ∷ vss) seen m apart h all g = absurd h
    group_partitions-IsGrouping (p ∷ ps) files [] seen m apart h all g = absurd h
    group_partitions-IsGrouping (p ∷ ps) files (vs ∷ vss) seen m apart h all g =
        let (files₁, taken, gone, others) = into_parts-Carries serde.json laws p files vs h.0 in
        let (now, later) =
          All-split (λ r. key_of serde std key r ≡ some (text r)) vs (concat vss) all in
        let (m₁, grouped, g₁) = group_records-IsGrouping vs seen m now g in
        let (m₂, files₂, rest, g₂, all_gone, absent) =
          group_partitions-IsGrouping ps files₁ vss (seen ++ vs) m₁ apart.1
            (AllCarry-files serde.json laws ps files files₁ vss (spill_path p) apart.0 others h.1)
            later g₁ in
        (
          m₂,
          files₂,
          rw (taken, grouped) rest,
          subst (IsGrouping m₂) (append_assoc seen vs (concat vss)) g₂,
          (absent (spill_path p) gone, all_gone),
          λ q a. absent q (absent_after files files₁ (spill_path p) q gone others a),
        )

    module _ (iter : HashMap String (List V) → HashMap String (List V)) where
      -- Iterating gives each entry of a map once.
      abbrev pub GivesEntries : Type 0
      GivesEntries =
          (m : HashMap String (List V))
          → Distinct m
          → Distinct (iter m) × ((k : String) → get (iter m) k ≡ get m k)

      -- While the disk does not fail, the inputs spill to different files, the reducer is known, every
      -- record of the inputs is an object with a text at the key, the map of groups gives each of its
      -- entries once, and the records of the inputs and of the groups are read back from JSON as they were
      -- written: `reduce_by_key` succeeds with one
      -- partition, with the number, limit and path of the first input. It holds one record for each text
      -- that occurs, which is made of all the records of the inputs with that text, in order.
      pub reduce_by_key-IsGrouping :
          (reducer : String) (kind : ReducerKind) (p : PartitionData V)
          (ps : List (PartitionData V)) (files : Files) (vss : List (List V))
          → GivesEntries
          → parse reducer ≡ ok kind
          → Apart serde.json (p ∷ ps)
          → AllCarry serde.json (p ∷ ps) files vss
          → AllText (concat vss)
          → AllExact reducer kind (concat vss)
          → (groups : HashMap String (List V)) × (p' : PartitionData V) × (files' : Files)
            × (reduce_by_key serde std iter key reducer (p ∷ ps) (sound files)
                ≡ (ok (p' ∷ []), sound files'))
            × Carries serde.json p' files' (map (group_record serde std key reducer kind) groups)
            × IsGrouping groups (concat vss)
            × (frame p' ≡ frame p)
      unfolding reduce_by_key get
      reduce_by_key-IsGrouping reducer kind p ps files vss order known apart h all reads =
          let (m, files₁, grouped, g, gone, _) =
            group_partitions-IsGrouping (p ∷ ps) files vss [] [] apart h all
              (record { once = tt; group = λ k. refl }) in
          let (once, kept) = order m g.once in
          let grouping : IsGrouping (iter m) (concat vss) = record {
            once = once;
            group = λ k. kept k ∙ g.group k;
          } in
          let (p', files₂, made, h', same, _) =
            from_records-Carries serde.json laws p.partition_id (limit_bytes p) (spill_path p)
              (map (group_record serde std key reducer kind) (iter m)) files₁
              (groups-Exact reducer kind (iter m) (concat vss) grouping reads) gone.0 in
          (iter m, p', files₂, rw (known, grouped, made) refl, h', grouping, same)

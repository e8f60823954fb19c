-- ===== src/Worker/Partition/Frame.antt =====
-- What the operations of a cache leave alone: other files, its limit and its spill path.
use mathlib.Core.Path.{subst}
use mathlib.Core.Option.{some-injective, none-ne-some}
use mathlib.Core.List.{append_assoc, append-nil}
use distributed_processing_e.Base.{
  ℕ, ◌≡◌, ◌≢◌, refl, sym, ap, ◌∙◌, String, Option, none, some, List, [], ◌∷◌, ◌++◌, map, ltb, All,
  Bool-cases, inl, inr,
}
use distributed_processing_e.Base.Eq.{string_eq}
use distributed_processing_e.Base.Map.{get, get-insert_ne, get-remove_ne}
use distributed_processing_e.Base.Outcome.{Outcome, ok, err}
use distributed_processing_e.Worker.Disk.{Disk, after, contents}
use distributed_processing_e.Worker.Partition.{
  Json, PartitionCache, total_size_bytes, write_values, spilled, spill_of, spill_to_disk,
  maybe_spill, pushed, push, push_batch, and_push, drain_all, drain_of, drained, read_back,
  parsed_from, parse_lines, pieces, line_of,
}
use distributed_processing_e.Worker.Partition.RoundTrip.{
  Files, sound, Holds, push-Holds, drain_all-Holds,
}
use distributed_processing_e.Worker.Partition.Lines.{IsJson, Exact}

module _ {V : Type 0} (json : Json V) where
  -- A cache only looks at its own file.
  pub Holds-files :
      (c : PartitionCache V) (files files' : Files) (vs : List V)
      → get files' c.spill_path ≡ get files c.spill_path
      → Holds json c files vs
      → Holds json c files' vs
  Holds-files c files files' vs same h = record {
    stored = h.stored;
    split = h.split;
    exact = h.exact;
    file = elim h.file [
      | inl (no_file, empty, absent) ↦ inl (no_file, empty, same ∙ absent)
      | inr (spilled_to, there) ↦ inr (spilled_to, same ∙ there)
    ];
    bounded = h.bounded;
    counted = h.counted;
  }

  spilled_kept :
      (c : PartitionCache V) (r : Outcome ℕ × Disk)
      → ((spilled json c r).2 ≡ r.1)
        × ((spilled json c r).1.spill_path ≡ c.spill_path)
        × ((spilled json c r).1.limit_bytes ≡ c.limit_bytes)
  spilled_kept c (err e, d) = (refl, refl, refl)
  spilled_kept c (ok n, d) = (refl, refl, refl)

  spill_of_kept :
      (vs : List V) (c : PartitionCache V) (d : Disk)
      → (let r = spill_of json vs c (sound d.files) in
          (r.1.spill_path ≡ c.spill_path) × (r.1.limit_bytes ≡ c.limit_bytes))
  spill_of_kept [] c d = (refl, refl)
  spill_of_kept (v ∷ vs) c d = ((spilled_kept c _).1, (spilled_kept c _).2)

  push_kept :
      (v : V) (c : PartitionCache V) (files : Files)
      → (let r = push json v c (sound files) in
          (r.1.spill_path ≡ c.spill_path) × (r.1.limit_bytes ≡ c.limit_bytes))
  unfolding push maybe_spill spill_to_disk
  push_kept v c files =
      elim (Bool-cases (ltb c.limit_bytes (total_size_bytes json (pushed json v c)))) [
        | inl over ↦ rw over (spill_of_kept (c.in_memory ++ v ∷ []) (pushed json v c) (sound files))
        | inr fits ↦ rw fits (refl, refl)
      ]

  module _ (q : String) where
    write_values-others :
        (path : String) (vs : List V) (n : ℕ) (files : Files)
        → path ≢ q
        → get (write_values json path vs n (sound files)).1.files q ≡ get files q
    unfolding write_values
    write_values-others path [] n files other = refl
    write_values-others path (v ∷ vs) n files other =
        write_values-others path vs _ _ other
        ∙ get-insert_ne _ path _ q other
        ∙ get-insert_ne files path _ q other

    spill_of-others :
        (vs : List V) (c : PartitionCache V) (files : Files)
        → c.spill_path ≢ q
        → get (spill_of json vs c (sound files)).2.files q ≡ get files q
    spill_of-others [] c files other = refl
    spill_of-others (v ∷ vs) c files other =
        ap (λ (d : Disk). get d.files q) (spilled_kept c _).0
        ∙ write_values-others c.spill_path c.in_memory 0 _ other
        ∙ get-insert_ne files c.spill_path _ q other

    push-others :
        (v : V) (c : PartitionCache V) (files : Files)
        → c.spill_path ≢ q
        → get (push json v c (sound files)).2.files q ≡ get files q
    unfolding push maybe_spill spill_to_disk
    push-others v c files other =
        elim (Bool-cases (ltb c.limit_bytes (total_size_bytes json (pushed json v c)))) [
          | inl over ↦
              rw over (spill_of-others (c.in_memory ++ v ∷ []) (pushed json v c) files other)
          | inr fits ↦ rw fits refl
        ]

  -- The values are pushed, and nothing else changes.
  pub push_batch-Holds-others :
      (ws : List V) (c : PartitionCache V) (files : Files) (vs : List V)
      → All (Exact json) ws
      → Holds json c files vs
      → (c' : PartitionCache V) × (files' : Files) × (push_batch json ws c (sound files)
          ≡ (ok tt, c', sound files'))
        × Holds json c' files' (vs ++ ws)
        × (c'.spill_path ≡ c.spill_path)
        × (c'.limit_bytes ≡ c.limit_bytes)
        × ((q : String) → c.spill_path ≢ q → get files' q ≡ get files q)
  unfolding push_batch
  push_batch-Holds-others [] c files vs reads h = (
    c,
    files,
    refl,
    subst (Holds json c files) (sym (append-nil vs)) h,
    refl,
    refl,
    λ q other. refl,
  )
  push_batch-Holds-others (w ∷ ws) c files vs reads h =
      let (c₁, files₁, first, h₁) = push-Holds json w c files vs reads.0 h in
      let path : c₁.spill_path ≡ c.spill_path =
        ap (λ r. r.1.spill_path) (sym first) ∙ (push_kept w c files).0 in
      let limit : c₁.limit_bytes ≡ c.limit_bytes =
        ap (λ r. r.1.limit_bytes) (sym first) ∙ (push_kept w c files).1 in
      let (c₂, files₂, rest, h₂, path₂, limit₂, others) =
        push_batch-Holds-others ws c₁ files₁ (vs ++ w ∷ []) reads.1 h₁ in
      (
        c₂,
        files₂,
        ap (λ p. and_push json p (push_batch json ws)) first ∙ rest,
        subst (Holds json c₂ files₂) (append_assoc vs (w ∷ []) ws) h₂,
        path₂ ∙ path,
        limit₂ ∙ limit,
        λ q other.
            others q (λ e. other (sym path ∙ e))
            ∙ ap (λ r. get r.2.files q) (sym first)
            ∙ push-others q w c files other,
      )

  drained-disk : (c : PartitionCache V) (r : Outcome (List V) × Disk) → (drained json c r).2 ≡ r.1
  drained-disk c (err e, d) = refl
  drained-disk c (ok vs, d) = refl

  drained_kept :
      (c : PartitionCache V) (r : Outcome (List V) × Disk)
      → (drained json c r).1.spill_path ≡ c.spill_path
  drained_kept c (err e, d) = refl
  drained_kept c (ok vs, d) = refl

  drain_of_kept :
      (o : Option String) (c : PartitionCache V) (d : Disk)
      → (drain_of json o c d).1.spill_path ≡ c.spill_path
  drain_of_kept none c d = refl
  drain_of_kept (some path) c d = drained_kept c (read_back json path d)

  parsed_from-others :
      (q path : String) (files : Files) (o : Outcome (List V))
      → path ≢ q
      → get (parsed_from json path (sound files) o).1.files q ≡ get files q
  parsed_from-others q path files (err e) other = refl
  parsed_from-others q path files (ok vs) other = get-remove_ne files path q other

  read_back-others :
      (q path : String) (files : Files) (o : Option (List ℕ))
      → path ≢ q
      → get
          (after
            (contents o, sound files)
            (λ e d. (err e, d))
            (λ bytes d.
              parsed_from json path d (parse_lines json (map line_of (pieces bytes))))).1.files
          q
        ≡ get files q
  read_back-others q path files none other = refl
  read_back-others q path files (some bytes) other = parsed_from-others q path files _ other

  -- Draining removes no file but the cache's own.
  drain_of-others :
      (q : String) (o : Option String) (c : PartitionCache V) (files : Files)
      → ((path : String) → o ≡ some path → path ≢ q)
      → get (drain_of json o c (sound files)).2.files q ≡ get files q
  drain_of-others q none c files other = refl
  drain_of-others q (some path) c files other =
      ap (λ (d : Disk). get d.files q) (drained-disk c _)
      ∙ read_back-others q path files (get files path) (other path refl)

  own_file :
      (c : PartitionCache V) (files : Files) (vs : List V) (path : String)
      → Holds json c files vs
      → c.spilled_file ≡ some path
      → path ≡ c.spill_path
  own_file c files vs path h e = elim h.file [
    | inl (no_file, empty, absent) ↦ absurd (none-ne-some path (sym no_file ∙ e))
    | inr (spilled_to, there) ↦ some-injective path c.spill_path (sym e ∙ spilled_to)
  ]

  -- Draining gives the values, removes the cache's file and changes nothing else.
  pub drain_all-Holds-others :
      IsJson json
      → (c : PartitionCache V) (files : Files) (vs : List V) → Holds json c files vs
      → (c' : PartitionCache V) × (files' : Files) × (drain_all json c (sound files)
          ≡ (ok vs, c', sound files'))
        × (c'.spill_path ≡ c.spill_path)
        × (get files' c.spill_path ≡ none)
        × ((q : String) → c.spill_path ≢ q → get files' q ≡ get files q)
  unfolding drain_all
  drain_all-Holds-others laws c files vs h =
      let (c', files', drains, empty) = drain_all-Holds json laws c files vs h in
      let path : c'.spill_path ≡ c.spill_path =
        ap (λ r. r.1.spill_path) (sym drains) ∙ drain_of_kept c.spilled_file c (sound files) in
      (
        c',
        files',
        drains,
        path,
        ap (get files') (sym path) ∙ empty.removed,
        λ q other.
            ap (λ r. get r.2.files q) (sym drains)
            ∙ drain_of-others q c.spilled_file c files
                (λ p e same. other (sym (own_file c files vs p h e) ∙ same)),
      )

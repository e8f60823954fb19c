-- ===== src/Worker/Partition/RoundTrip.antt =====
-- What is pushed into a cache comes out again, in order, while the disk does not fail.
use mathlib.Core.Path.{subst}
use mathlib.Core.List.{append_assoc, append-nil}
use distributed_processing_e.Base.{
  ℕ, ◌%◌, ◌^◌, ◌≤◌, ◌≡◌, ◌⊎◌, refl, sym, ap, ◌∙◌, String, none, some, List, [], ◌∷◌, ◌++◌, map,
  arith, length, ltb, All, All-append, All-split, Bool-cases, inl, inr, length-append,
}
use distributed_processing_e.Base.Eq.{string_eq}
use distributed_processing_e.Base.Map.{HashMap, get, insert, remove, get-insert_self, get-remove}
use distributed_processing_e.Base.Outcome.{Outcome, ok, err}
use distributed_processing_e.Base.Words.{add_usize}
use distributed_processing_e.Worker.Disk.{Disk, bytes_of, after, contents}
use distributed_processing_e.Worker.Partition.{
  Json, PartitionCache, new_cache, total_size_bytes, write_values, spilled, spill_nonempty,
  spill_of, spill_to_disk, maybe_spill, pushed, push, push_batch, and_push, drain_all, drain_of,
  drained, read_back, parsed_from, emptied, parse_lines, pieces, line_of,
}
use distributed_processing_e.Worker.Partition.Lines.{
  IsJson, Exact, encode, encode-append, parse_lines-encode,
}

abbrev pub Files : Type 0
Files = HashMap String (List ℕ)

-- A disk that does not fail.
abbrev pub sound : Files → Disk
sound files = record { files = files; faults = [] }

module _ {V : Type 0} (json : Json V) where
  write_values-sound :
      (path : String) (vs : List V) (n : ℕ) (files : Files) (old : List ℕ)
      → get files path ≡ some old
      → (m : ℕ) × (files' : Files) × (write_values json path vs n (sound files)
          ≡ (ok m, sound files'))
        × (get files' path ≡ some (old ++ encode json vs))
  unfolding write_values
  write_values-sound path [] n files old h =
      (n, files, refl, h ∙ ap (λ bs. some bs) (sym (append-nil old)))
  write_values-sound path (v ∷ vs) n files old h =
      let first = insert files path (bytes_of (get files path) ++ json.to_vec v) in
      let second = insert first path (bytes_of (get first path) ++ 10 ∷ []) in
      let (m, files', wrote, has) =
        write_values-sound path vs (add_usize (add_usize n (length (json.to_vec v))) 1) second
          ((old ++ json.to_vec v) ++ 10 ∷ [])
          (get-insert_self first path _
            ∙ ap (λ o. some (bytes_of o ++ 10 ∷ []))
                (get-insert_self files path _ ∙ ap (λ o. some (bytes_of o ++ json.to_vec v)) h)) in
      (
        m,
        files',
        wrote,
        has
            ∙ ap (λ bs. some bs)
                (append_assoc (old ++ json.to_vec v) (10 ∷ []) (encode json vs)
                  ∙ append_assoc old (json.to_vec v) (10 ∷ encode json vs)),
      )

  -- The cache and its file hold the values, in this order, each of them one that is read back as it was
  -- written; the cache keeps none in memory, or no more
  -- bytes than its limit.
  pub record Holds (c : PartitionCache V) (files : Files) (vs : List V) : Type 0 where
    pub stored : List V
    pub split : vs ≡ stored ++ c.in_memory
    pub exact : All (Exact json) vs
    pub file :
        ((c.spilled_file ≡ none) × (stored ≡ []) × (get files c.spill_path ≡ none))
        ⊎ ((c.spilled_file ≡ some c.spill_path)
            × (get files c.spill_path ≡ some (encode json stored)))
    pub bounded : (c.in_memory ≡ []) ⊎ (total_size_bytes json c ≤ c.limit_bytes)
    pub counted : c.record_count ≡ length vs % 2 ^ 64

  file_bytes :
      (c : PartitionCache V) (files : Files) (vs : List V) (h : Holds c files vs)
      → bytes_of (get files c.spill_path) ≡ encode json h.stored
  file_bytes c files vs h = elim h.file [
    | inl (_, empty, absent) ↦ ap bytes_of absent ∙ ap (encode json) (sym empty)
    | inr (_, there) ↦ ap bytes_of there
  ]

  spill_of_snoc :
      (xs : List V) (v : V) (c : PartitionCache V) (d : Disk)
      → spill_of json (xs ++ v ∷ []) c d ≡ spill_nonempty json c d
  spill_of_snoc [] v c d = refl
  spill_of_snoc (x ∷ xs) v c d = refl

  count_one :
      (n : ℕ) (vs : List V) (v : V)
      → n ≡ length vs % 2 ^ 64
      → add_usize n 1 ≡ length (vs ++ v ∷ []) % 2 ^ 64
  count_one n vs v h = omega (arith, h, length-append vs (v ∷ []))

  pub push-Holds :
      (v : V) (c : PartitionCache V) (files : Files) (vs : List V)
      → Exact json v
      → Holds c files vs
      → (c' : PartitionCache V) × (files' : Files) × (push json v c (sound files)
          ≡ (ok tt, c', sound files'))
        × Holds c' files' (vs ++ v ∷ [])
  unfolding push maybe_spill spill_to_disk
  push-Holds v c files vs reads h =
      elim (Bool-cases (ltb c.limit_bytes (total_size_bytes json (pushed json v c)))) [
        | inr fits ↦ (
          pushed json v c,
          files,
          rw fits,
          record {
            stored = h.stored;
            split = ap (λ vs. vs ++ v ∷ []) h.split ∙ append_assoc h.stored c.in_memory (v ∷ []);
            exact = All-append (Exact json) vs (v ∷ []) h.exact (reads, tt);
            file = h.file;
            bounded = inr (ground arith);
            counted = count_one c.record_count vs v h.counted;
          },
        )
        | inl over ↦
            let opened = insert files c.spill_path (bytes_of (get files c.spill_path)) in
            let (m, files', wrote, has) =
              write_values-sound c.spill_path (c.in_memory ++ v ∷ []) 0 opened
                (encode json h.stored)
                (get-insert_self files c.spill_path _
                  ∙ ap (λ bs. some bs) (file_bytes c files vs h)) in
            (
              record (pushed json v c) {
                in_memory = [];
                spilled_file = some c.spill_path;
                spilled_bytes = add_usize c.spilled_bytes m;
                in_memory_bytes = 0;
              },
              files',
              rw over (
                  spill_of_snoc c.in_memory v (pushed json v c) (sound files)
                  ∙ ap (spilled json (pushed json v c)) wrote),
              record {
                stored = h.stored ++ (c.in_memory ++ v ∷ []);
                split =
                    ap (λ vs. vs ++ v ∷ []) h.split
                    ∙ append_assoc h.stored c.in_memory (v ∷ [])
                    ∙ sym (append-nil (h.stored ++ (c.in_memory ++ v ∷ [])));
                exact = All-append (Exact json) vs (v ∷ []) h.exact (reads, tt);
                file = inr (
                  refl,
                  has
                      ∙ ap (λ bs. some bs)
                          (sym (encode-append json h.stored (c.in_memory ++ v ∷ []))),
                );
                bounded = inl refl;
                counted = count_one c.record_count vs v h.counted;
              },
            )
      ]

  -- While the disk does not fail: pushing values into a cache that holds some succeeds, and it holds
  -- those and the new ones behind them: in its file and in memory, in memory no more bytes than the
  -- limit together with the file's, or none.
  push_batch-Holds :
      (ws : List V) (c : PartitionCache V) (files : Files) (vs : List V)
      → All (Exact json) ws
      → Holds c files vs
      → (c' : PartitionCache V) × (files' : Files) × (push_batch json ws c (sound files)
          ≡ (ok tt, c', sound files'))
        × Holds c' files' (vs ++ ws)
  unfolding push_batch
  push_batch-Holds [] c files vs reads h =
      (c, files, refl, subst (Holds c files) (sym (append-nil vs)) h)
  push_batch-Holds (w ∷ ws) c files vs reads h =
      let (c₁, files₁, first, h₁) = push-Holds w c files vs reads.0 h in
      let (c₂, files₂, rest, h₂) = push_batch-Holds ws c₁ files₁ (vs ++ w ∷ []) reads.1 h₁ in
      (
        c₂,
        files₂,
        ap (λ p. and_push json p (push_batch json ws)) first ∙ rest,
        subst (Holds c₂ files₂) (append_assoc vs (w ∷ []) ws) h₂,
      )

  pub new_cache-Holds :
      (limit : ℕ) (path : String) (files : Files)
      → get files path ≡ none
      → Holds (new_cache json limit path) files []
  new_cache-Holds limit path files absent = record {
    stored = [];
    split = refl;
    exact = tt;
    file = inl (refl, refl, absent);
    bounded = inl refl;
    counted = omega arith;
  }

  module _ (laws : IsJson json) where
    -- What is left when the cache is drained.
    pub record IsDrained (c : PartitionCache V) (files : Files) : Type 0 where
      pub no_values : c.in_memory ≡ []
      pub no_file : c.spilled_file ≡ none
      pub no_bytes : c.in_memory_bytes ≡ 0
      pub removed : get files c.spill_path ≡ none

    -- Reading the lines of a file that is open.
    abbrev reading : String → List ℕ → Disk → Outcome (List V) × Disk
    reading path bytes d = parsed_from json path d (parse_lines json (map line_of (pieces bytes)))

    pub drain_all-Holds :
        (c : PartitionCache V) (files : Files) (vs : List V)
        → Holds c files vs
        → (c' : PartitionCache V) × (files' : Files) × (drain_all json c (sound files)
            ≡ (ok vs, c', sound files'))
          × IsDrained c' files'
    unfolding drain_all
    drain_all-Holds c files vs h = elim h.file [
      | inl (no_file, empty, absent) ↦ (
        record c { in_memory = []; in_memory_bytes = 0; record_count = length c.in_memory },
        files,
        ap (λ o. drain_of json o c (sound files)) no_file
            ∙ ap
                (λ vs. (
                  ok vs,
                  record c {
                    in_memory = [];
                    in_memory_bytes = 0;
                    record_count = length c.in_memory;
                  },
                  sound files,
                ))
                (sym (h.split ∙ ap (λ xs. xs ++ c.in_memory) empty)),
        record { no_values = refl; no_file = no_file; no_bytes = refl; removed = absent },
      )
      | inr (spilled_to, there) ↦ (
        emptied json c (length vs),
        remove files c.spill_path,
        ap (λ o. drain_of json o c (sound files)) spilled_to
            ∙ ap (drained json c) (read_stored there)
            ∙ ap (λ vs. (ok vs, emptied json c (length vs), sound (remove files c.spill_path)))
                (sym h.split),
        record {
          no_values = refl;
          no_file = refl;
          no_bytes = refl;
          removed =
              get-remove files c.spill_path c.spill_path
              ∙ rw ((string_eq.same_iff c.spill_path c.spill_path).1 refl);
        },
      )
    ]
      where
        read_stored :
            get files c.spill_path ≡ some (encode json h.stored)
            → read_back json c.spill_path (sound files)
              ≡ (ok h.stored, sound (remove files c.spill_path))
        read_stored there =
            ap (λ o. after (contents o, sound files) (λ e d. (err e, d)) (reading c.spill_path))
              there
            ∙ ap (parsed_from json c.spill_path (sound files)) (
                parse_lines-encode json laws h.stored
                  (All-split (Exact json) h.stored c.in_memory
                    (subst (All (Exact json)) h.split h.exact)).0)

    -- While the disk does not fail and the spill path has no file at first: values that `serde_json` reads
    -- back as it wrote them, which are pushed into a new cache, are drained from it again, in order, whatever the limit and however often it spilled; the
    -- cache is empty then and its file is gone.
    pub drain_all-push_batch :
        (limit : ℕ) (path : String) (files : Files) (vs : List V)
        → All (Exact json) vs
        → get files path ≡ none
        → (c : PartitionCache V) × (files₁ : Files) × (push_batch json vs
              (new_cache json limit path)
              (sound files)
            ≡ (ok tt, c, sound files₁))
          × (c' : PartitionCache V) × (files₂ : Files) × (drain_all json c (sound files₁)
              ≡ (ok vs, c', sound files₂))
          × IsDrained c' files₂
    drain_all-push_batch limit path files vs reads absent =
        let (c, files₁, pushes, h) =
          push_batch-Holds vs (new_cache json limit path) files [] reads
            (new_cache-Holds limit path files absent) in
        let (c', files₂, drains, empty) = drain_all-Holds c files₁ vs h in
        (c, files₁, pushes, c', files₂, drains, empty)

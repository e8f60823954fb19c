-- ===== src/Worker/Partition.antt =====
-- The cache of a partition's records, which spills to a file when it grows: `PartitionCache` of
-- src/worker/partition.rs.
pub mod Lines
pub mod RoundTrip
pub mod Frame
use distributed_processing_e.Base.{
  ℕ, zero, suc, ◌+◌, ◌<◌, String, Bool, true, false, Option, none, some, List, [], ◌∷◌, ◌++◌, map,
  length, ltb, eqb, if◌then◌else◌,
}
use distributed_processing_e.Base.Outcome.{Outcome, ok, err}
use distributed_processing_e.Base.Words.{add_usize}
use distributed_processing_e.Worker.Disk.{
  Disk, after, make_dir, open_append, append_bytes, read_all, remove_file,
}

-- What the cache uses of `serde_json`, and of the standard library on the text of a line: the bytes
-- of a value, and reading a line back. `is_blank` says that a line is empty when trimmed, and
-- `from_line` fails on a line that is not UTF-8 or not JSON.
pub record Json (V : Type 0) : Type 0 where
  pub to_vec : V → List ℕ
  pub from_line : List ℕ → Outcome V
  pub is_blank : List ℕ → Bool

pub record PartitionCache (V : Type 0) : Type 0 where
  pub in_memory : List V
  pub spilled_file : Option String
  pub in_memory_bytes : ℕ
  pub spilled_bytes : ℕ
  pub limit_bytes : ℕ
  pub spill_path : String
  pub record_count : ℕ

-- `BufRead::lines`: a line ends with a newline, and loses a carriage return before it.
abbrev strip_return : List ℕ → List ℕ
strip_return [] = []
strip_return (b ∷ []) = if eqb b 13 then [] else b ∷ []
strip_return (b ∷ c ∷ bs) = b ∷ strip_return (c ∷ bs)

abbrev onto_first : ℕ → List (Bool × List ℕ) → List (Bool × List ℕ)
onto_first b [] = (false, b ∷ []) ∷ []
onto_first b ((ended, line) ∷ rest) = (ended, b ∷ line) ∷ rest

-- The pieces between newlines, each with whether a newline ends it.
unfoldable pub pieces : List ℕ → List (Bool × List ℕ)
pieces [] = []
pieces (b ∷ bs) = let rest = pieces bs in if eqb b 10 then (true, []) ∷ rest else onto_first b rest

abbrev pub line_of : Bool × List ℕ → List ℕ
line_of (true, line) = strip_return line
line_of (false, line) = line

module _ {V : Type 0} (json : Json V) where
  abbrev pub new_cache : ℕ → String → PartitionCache V
  new_cache limit_bytes spill_path = record {
    in_memory = [];
    spilled_file = none;
    in_memory_bytes = 0;
    spilled_bytes = 0;
    limit_bytes = limit_bytes;
    spill_path = spill_path;
    record_count = 0;
  }

  abbrev pub estimate_size : V → ℕ
  estimate_size v = length (json.to_vec v)

  abbrev pub total_size_bytes : PartitionCache V → ℕ
  total_size_bytes c = add_usize c.spilled_bytes c.in_memory_bytes

  -- The two writes of one value, and the count of bytes with it.
  abbrev write_value : String → V → ℕ → Disk → Outcome ℕ × Disk
  write_value path v written d =
      after (append_bytes path (json.to_vec v) d) (λ e d. (err e, d))
        (λ _ d₁.
          after (append_bytes path (10 ∷ []) d₁) (λ e d. (err e, d))
            (λ _ d₂. (ok (add_usize (add_usize written (estimate_size v)) 1), d₂)))

  unfoldable pub write_values : String → List V → ℕ → Disk → Outcome ℕ × Disk
  write_values path [] written d = (ok written, d)
  write_values path (v ∷ vs) written d =
      after (write_value path v written d) (λ e d. (err e, d)) (write_values path vs)

  -- After the writes: the drained values are gone from the cache even where a write failed.
  abbrev pub spilled :
      PartitionCache V → Outcome ℕ × Disk → Outcome (Unit {0}) × PartitionCache V × Disk
  spilled c (err e, d) = (err e, record c { in_memory = [] }, d)
  spilled c (ok written, d) = (
    ok tt,
    record c {
      in_memory = [];
      spilled_file = some c.spill_path;
      spilled_bytes = add_usize c.spilled_bytes written;
      in_memory_bytes = 0;
    },
    d,
  )

  abbrev pub spill_nonempty : PartitionCache V → Disk → Outcome (Unit {0}) × PartitionCache V × Disk
  spill_nonempty c d =
      after (make_dir d) (λ e d. (err e, c, d))
        (λ _ d₁.
          after (open_append c.spill_path d₁) (λ e d. (err e, c, d))
            (λ _ d₂. spilled c (write_values c.spill_path c.in_memory 0 d₂)))

  -- `is_empty()` of the values in memory ends it early.
  abbrev pub spill_of :
      List V → PartitionCache V → Disk → Outcome (Unit {0}) × PartitionCache V × Disk
  spill_of [] c d = (ok tt, c, d)
  spill_of (v ∷ vs) c d = spill_nonempty c d

  unfoldable pub spill_to_disk :
      PartitionCache V → Disk → Outcome (Unit {0}) × PartitionCache V × Disk
  spill_to_disk c d = spill_of c.in_memory c d

  unfoldable pub maybe_spill :
      PartitionCache V → Disk → Outcome (Unit {0}) × PartitionCache V × Disk
  maybe_spill c d =
      if ltb c.limit_bytes (total_size_bytes c) then spill_to_disk c d else (ok tt, c, d)

  abbrev pub pushed : V → PartitionCache V → PartitionCache V
  pushed v c = record c {
    in_memory = c.in_memory ++ v ∷ [];
    in_memory_bytes = add_usize c.in_memory_bytes (estimate_size v);
    record_count = add_usize c.record_count 1;
  }

  unfoldable pub push : V → PartitionCache V → Disk → Outcome (Unit {0}) × PartitionCache V × Disk
  push v c d = maybe_spill (pushed v c) d

  abbrev pub and_push :
      Outcome (Unit {0}) × PartitionCache V × Disk
      → (PartitionCache V → Disk → Outcome (Unit {0}) × PartitionCache V × Disk)
      → Outcome (Unit {0}) × PartitionCache V × Disk
  and_push (err e, c, d) f = (err e, c, d)
  and_push (ok _, c, d) f = f c d

  unfoldable pub push_batch :
      List V → PartitionCache V → Disk → Outcome (Unit {0}) × PartitionCache V × Disk
  push_batch [] c d = (ok tt, c, d)
  push_batch (v ∷ vs) c d = and_push (push v c d) (push_batch vs)

  -- The values of the lines; blank lines are skipped, the first bad line ends the reading.
  unfoldable pub parse_lines : List (List ℕ) → Outcome (List V)
  parse_lines [] = ok []
  parse_lines (line ∷ lines) =
      let rest = parse_lines lines in
      if json.is_blank line then rest else elim (json.from_line line) [
        | err e ↦ err e
        | ok v ↦ elim rest [ err e ↦ err e | ok vs ↦ ok (v ∷ vs) ]
      ]

  abbrev pub emptied : PartitionCache V → ℕ → PartitionCache V
  emptied c count = record c {
    in_memory = [];
    spilled_file = none;
    in_memory_bytes = 0;
    spilled_bytes = 0;
    record_count = count;
  }

  -- The file is removed once all of it is read.
  abbrev pub parsed_from : String → Disk → Outcome (List V) → Outcome (List V) × Disk
  parsed_from path d (err e) = (err e, d)
  parsed_from path d (ok vs) = (ok vs, remove_file path d)

  abbrev pub read_back : String → Disk → Outcome (List V) × Disk
  read_back path d =
      after (read_all path d) (λ e d. (err e, d))
        (λ bytes d₁. parsed_from path d₁ (parse_lines (map line_of (pieces bytes))))

  abbrev pub drained :
      PartitionCache V → Outcome (List V) × Disk → Outcome (List V) × PartitionCache V × Disk
  drained c (err e, d) = (err e, c, d)
  drained c (ok vs, d) =
      let data_read = vs ++ c.in_memory in (ok data_read, emptied c (length data_read), d)

  abbrev pub drain_of :
      Option String → PartitionCache V → Disk → Outcome (List V) × PartitionCache V × Disk
  drain_of none c d = (
    ok c.in_memory,
    record c { in_memory = []; in_memory_bytes = 0; record_count = length c.in_memory },
    d,
  )
  drain_of (some path) c d = drained c (read_back path d)

  unfoldable pub drain_all : PartitionCache V → Disk → Outcome (List V) × PartitionCache V × Disk
  drain_all c d = drain_of c.spilled_file c d

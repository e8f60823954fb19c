-- ===== src/Worker/Ops/Read.antt =====
-- `ReadOp`: src/worker/ops/read.rs. A file is its bytes; opening and reading it are one operation of
-- the disk, which fails as the opening does.
pub mod Dealing
pub mod Reading
use Prim.Native.Char.{code}
use Prim.Native.String.{◌++◌ as append}
use distributed_processing_e.Base.{
  ℕ, suc, ◌%◌, ◌&&◌, not, eqb, ◌||◌, map, String, Bool, true, false, Option, none, some, List, [],
  ◌∷◌, ◌++◌, get_elem?, if◌then◌else◌,
}
use distributed_processing_e.Base.Decimal.{show_nat}
use distributed_processing_e.Base.Eq.{◌==◌, string_eq}
use distributed_processing_e.Base.Outcome.{Outcome, ok, err, ok_or, ◌>>=◌}
use distributed_processing_e.Base.Text.{
  is_empty_text, is_whitespace, trim, trim_end_matches, split, lines,
}
use distributed_processing_e.Worker.Action
use distributed_processing_e.Worker.Action.{Action, pure, lift}
use distributed_processing_e.Worker.Disk.{after, read_all}
use distributed_processing_e.Worker.Ops.Data.{PartitionData, from_records}
use distributed_processing_e.Worker.Ops.Value.{View, Serde, Std}
use distributed_processing_e.Worker.Partition.{pieces, line_of}

pub record ReadOp : Type 0 where
  pub path : String
  pub format : String
  pub partition_id : ℕ
  pub total_partitions : ℕ
  pub cache_limit_bytes : ℕ
  pub spill_path : String

-- The rows that this partition takes.
abbrev is_mine : ℕ → ℕ → ℕ → Bool
is_mine total pid idx = eqb (idx % total) pid

abbrev is_blank : String → Bool
is_blank line = is_empty_text (trim line)

-- `file.read_line`: the first line with its newline.
abbrev header_bytes : List (Bool × List ℕ) → List ℕ
header_bytes [] = []
header_bytes ((true, line) ∷ rest) = line ++ 10 ∷ []
header_bytes ((false, line) ∷ rest) = line

abbrev data_pieces : List (Bool × List ℕ) → List (Bool × List ℕ)
data_pieces [] = []
data_pieces (p ∷ rest) = rest

abbrev not_utf8 : String
not_utf8 = "stream did not contain valid UTF-8"

abbrev header_names : String → List String
header_names header_line =
    map trim (split (λ c. eqb c b',') (trim_end_matches (λ c. eqb c 13 || eqb c 10) header_line))

-- The first character that is no white space.
abbrev first_visible : String → Option ℕ
first_visible String.[] = none
first_visible (String.◌∷◌ c s) = if is_whitespace (code c) then first_visible s else some (code c)

abbrev is_array_text : Option ℕ → Bool
is_array_text none = false
is_array_text (some c) = eqb c b'['

module _ {V M N : Type 0} (serde : Serde V M N) (std : Std) where
  abbrev infer_float : String → Option N → V
  infer_float raw none = serde.make (View.string raw)
  infer_float raw (some n) = serde.make (View.number n)

  abbrev infer_other : String → Option ℕ → V
  infer_other raw none = serde.make (View.string raw)
  infer_other raw (some f) = infer_float raw (serde.from_f64 f)

  unfoldable pub infer_number : String → V
  infer_number raw = elim (std.parse_i64 raw) [
    | some i ↦ serde.make (View.number (serde.of_i64 i))
    | none ↦ infer_other raw (std.parse_f64 raw)
  ]

  abbrev column_name : ℕ → Option String → String
  column_name idx none = append "col" (show_nat idx)
  column_name idx (some name) = name

  unfoldable pub insert_columns : List String → ℕ → List String → M → M
  unfolding infer_number show_nat trim
  insert_columns headers idx [] obj = obj
  insert_columns headers idx (col ∷ cols) obj =
      insert_columns headers (suc idx) cols
        (serde.insert obj (column_name idx (get_elem? headers idx)) (infer_number (trim col)))

  unfoldable pub parse_csv_line_to_object : List String → String → V
  unfolding insert_columns split
  parse_csv_line_to_object headers row =
      serde.make
        (View.object (insert_columns headers 0 (split (λ c. eqb c b',') row) serde.new_map))

  abbrev wrapped : V → V
  wrapped value = serde.make (View.object (serde.insert serde.new_map "value" value))

  unfoldable pub normalize_json_value : V → V
  normalize_json_value value = elim (serde.view value) [ View.object m ↦ value | _ ↦ wrapped value ]

  abbrev pub decoded : List ℕ → Outcome String
  decoded line = ok_or (std.from_utf8 line) not_utf8

  abbrev file_lines : List ℕ → List (Outcome String)
  file_lines bytes = map (λ p. decoded (line_of p)) (pieces bytes)

  module _ (total pid : ℕ) where
    abbrev pub csv_row : List String → ℕ → String → List V → List V
    csv_row headers data_idx line rest =
        if not (is_blank line) && is_mine total pid data_idx
        then parse_csv_line_to_object headers line ∷ rest
        else rest

    -- Blank lines are not counted.
    unfoldable pub csv_records : List String → ℕ → List (Outcome String) → Outcome (List V)
    unfolding trim parse_csv_line_to_object
    csv_records headers data_idx [] = ok []
    csv_records headers data_idx (line ∷ rest) = do
      text ← line
      records ← csv_records headers (if is_blank text then data_idx else suc data_idx) rest
      ok (csv_row headers data_idx text records)

    abbrev pub parse_csv : List (Outcome String) → String → Outcome (List V)
    parse_csv rows header_line =
        if is_blank header_line
        then err "CSV header is empty"
        else csv_records (header_names header_line) 0 rows

    unfoldable pub read_csv : List ℕ → Outcome (List V)
    unfolding csv_records pieces trim trim_end_matches split
    read_csv bytes = do
      header_line ← ok_or (std.from_utf8 (header_bytes (pieces bytes))) "reading CSV header"
      parse_csv (map (λ p. decoded (line_of p)) (data_pieces (pieces bytes))) header_line

    abbrev bad_line : ℕ → Outcome V → Outcome V
    bad_line idx (ok v) = ok v
    bad_line idx (err e) =
        err (append "failed to parse json line " (append (show_nat idx) (append ": " e)))

    -- The value of one line; none where it is blank.
    abbrev json_line : ℕ → String → Outcome (List V)
    json_line idx text =
        if is_blank text
        then ok []
        else do value ← bad_line idx (serde.from_str text); ok (normalize_json_value value ∷ [])

    -- Every line is counted; a line of another partition is not looked at.
    unfoldable pub jsonl_records : ℕ → List (Outcome String) → Outcome (List V)
    unfolding trim normalize_json_value show_nat
    jsonl_records idx [] = ok []
    jsonl_records idx (line ∷ rest) = do
      values ← (if is_mine total pid idx then line >>= json_line idx else ok [])
      records ← jsonl_records (suc idx) rest
      ok (values ++ records)

    unfoldable pub array_records : ℕ → List V → List V
    unfolding normalize_json_value
    array_records idx [] = []
    array_records idx (elem ∷ elements) =
        let records = array_records (suc idx) elements in
        if is_mine total pid idx then normalize_json_value elem ∷ records else records

    abbrev array_of : View V M N → Outcome (List V)
    array_of (View.array elements) = ok (array_records 0 elements)
    array_of _ = err "json input is not an array"

    abbrev in_context : String → Outcome V → Outcome V
    in_context message (ok v) = ok v
    in_context message (err e) = err message

    abbrev parse_json : String → Outcome (List V)
    parse_json buf =
        if is_array_text (first_visible buf)
        then (do
          arr ← in_context "parsing json array input" (serde.from_str buf)
          array_of (serde.view arr))
        else jsonl_records 0 (map (λ line. ok line) (lines buf))

    unfoldable pub read_json : List ℕ → Outcome (List V)
    unfolding array_records jsonl_records lines
    read_json bytes = do buf ← decoded bytes; parse_json buf

    -- The records of a file that belong to a partition.
    unfoldable pub read_records : String → List ℕ → Outcome (List V)
    unfolding read_csv jsonl_records read_json pieces
    read_records format bytes =
        if format == "csv"
        then read_csv bytes
        else if format == "jsonl" || format == "ndjson"
        then jsonl_records 0 (file_lines bytes)
        else if format == "json"
        then read_json bytes
        else err (append "unsupported format '" (append format "'"))

  abbrev pub open_records : ReadOp → Outcome (List V) → Action (List (PartitionData V))
  open_records op read = Action.◌>>=◌ (lift read) λ records.
      Action.◌>>=◌
        (from_records serde.json op.partition_id op.cache_limit_bytes op.spill_path records)
        λ p. pure (p ∷ [])

  -- The partitions that come in are not used.
  unfoldable pub execute : ReadOp → List (PartitionData V) → Action (List (PartitionData V))
  unfolding read_records from_records
  execute op partitions d =
      after (read_all op.path d) (λ e d₁. (err (append "opening input " op.path), d₁))
        (λ bytes.
          open_records op (read_records op.total_partitions op.partition_id op.format bytes))

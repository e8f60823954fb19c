-- ===== src/Worker/Ops/Read/Dealing.antt =====
-- How `ReadOp` of src/worker/ops/read.rs shares the rows of a file among the partitions.
use distributed_processing_e.Base.{
  ℕ, suc, ◌%◌, ◌<◌, ◌≡◌, refl, ap, ◌∙◌, eqb, true, String, List, [], ◌∷◌, map, arith, if◌then◌else◌,
  Bool-cases, inl, inr, Option, none, some,
}
use distributed_processing_e.Base.Outcome.{Outcome, ok, err, ok_or, ◌>>=◌}
use distributed_processing_e.Worker.Ops.Read.{
  is_blank, header_bytes, data_pieces, header_names, decoded, csv_row, csv_records, parse_csv,
  read_csv, array_records, read_records,
}
use distributed_processing_e.Worker.Ops.Value.{Serde, Std}
use distributed_processing_e.Worker.Partition.{pieces, line_of}

-- Rows are dealt out in turn: those at the places whose remainder is `pid`, counted from `idx`.
abbrev pub deal {ℓ} : {A : Type ℓ} → ℕ → ℕ → ℕ → List A → List A
deal total pid idx [] = []
deal total pid idx (x ∷ xs) =
    let rest = deal total pid (suc idx) xs in if eqb (idx % total) pid then x ∷ rest else rest

abbrev pub with_ok {ℓ} : {A : Type ℓ} → (A → A) → Outcome A → Outcome A
with_ok f (ok a) = ok (f a)
with_ok f (err e) = err e

mine_alone : (idx : ℕ) → eqb (idx % 1) 0 ≡ true
mine_alone idx = ground arith

module _ {V M N : Type 0} (serde : Serde V M N) (std : Std) (total pid : ℕ) where
  csv_row-deal :
      (headers : List String) (idx : ℕ) (text : String) (rows : List V)
      → csv_row serde std total pid headers idx text
          (deal total pid (if is_blank text then idx else suc idx) rows)
        ≡ deal total pid idx (csv_row serde std 1 0 headers idx text rows)
  csv_row-deal headers idx text rows = elim (Bool-cases (is_blank text)) [
    | inl blank ↦ rw blank refl
    | inr row ↦ rw (row, mine_alone idx) refl
  ]

  row_then :
      (headers : List String) (idx : ℕ) (text : String) (o : Outcome (List V))
      → (with_ok (deal total pid (if is_blank text then idx else suc idx)) o >>= λ records.
          ok (csv_row serde std total pid headers idx text records))
        ≡ with_ok
            (deal total pid idx)
            (o >>= λ records. ok (csv_row serde std 1 0 headers idx text records))
  row_then headers idx text (err e) = refl
  row_then headers idx text (ok rows) = ap (λ r. ok r) (csv_row-deal headers idx text rows)

  csv_records-deal :
      (headers : List String) (idx : ℕ) (lines : List (Outcome String))
      → csv_records serde std total pid headers idx lines
        ≡ with_ok (deal total pid idx) (csv_records serde std 1 0 headers idx lines)
  unfolding csv_records
  csv_records-deal headers idx [] = refl
  csv_records-deal headers idx (err e ∷ lines) = refl
  csv_records-deal headers idx (ok text ∷ lines) =
      ap (λ o. o >>= λ records. ok (csv_row serde std total pid headers idx text records))
        (csv_records-deal headers (if is_blank text then idx else suc idx) lines)
      ∙ row_then headers idx text
          (csv_records serde std 1 0 headers (if is_blank text then idx else suc idx) lines)

  parse_csv-deal :
      (rows : List (Outcome String)) (header_line : String)
      → parse_csv serde std total pid rows header_line
        ≡ with_ok (deal total pid 0) (parse_csv serde std 1 0 rows header_line)
  parse_csv-deal rows header_line = elim (Bool-cases (is_blank header_line)) [
    | inl blank ↦ rw blank refl
    | inr there ↦ rw there (csv_records-deal (header_names header_line) 0 rows)
  ]

  read_csv-deal :
      (bytes : List ℕ)
      → read_csv serde std total pid bytes
        ≡ with_ok (deal total pid 0) (read_csv serde std 1 0 bytes)
  unfolding read_csv
  read_csv-deal bytes = with_header (std.from_utf8 (header_bytes (pieces bytes)))
    where
      rows : List (Outcome String)
      rows = map (λ p. decoded serde std (line_of p)) (data_pieces (pieces bytes))

      with_header :
          (o : Option String)
          → (ok_or o "reading CSV header" >>= parse_csv serde std total pid rows)
            ≡ with_ok
                (deal total pid 0)
                (ok_or o "reading CSV header" >>= parse_csv serde std 1 0 rows)
      with_header none = refl
      with_header (some header_line) = parse_csv-deal rows header_line

  array_records-deal :
      (idx : ℕ) (elements : List V)
      → array_records serde std total pid idx elements
        ≡ deal total pid idx (array_records serde std 1 0 idx elements)
  unfolding array_records
  array_records-deal idx [] = refl
  array_records-deal idx (elem_value ∷ elements) =
      rw (mine_alone idx, array_records-deal (suc idx) elements) refl

  -- Where there is at least one partition, reading a CSV file for one of `total` partitions gives every
  -- `total`-th of the rows that reading it in one partition gives, from the partition's number on, or the
  -- same error; and so with the elements of a JSON array: each row goes to the one partition that its
  -- place leaves as remainder.
  pub read_csv_deals :
      0 < total
      → (bytes : List ℕ) (elements : List V)
      → (read_records serde std total pid "csv" bytes
          ≡ with_ok (deal total pid 0) (read_records serde std 1 0 "csv" bytes))
        × (array_records serde std total pid 0 elements
            ≡ deal total pid 0 (array_records serde std 1 0 0 elements))
  unfolding read_records
  read_csv_deals positive bytes elements = (read_csv-deal bytes, array_records-deal 0 elements)

-- ===== src/Worker/Ops/Join.antt =====
-- `JoinOp`: src/worker/ops/join.rs.
pub mod Rows
pub mod Marks
pub mod Relational
pub mod Executed
use Prim.Native.String.{◌++◌ as append}
use distributed_processing_e.Base.{
  ℕ, zero, suc, ◌&&◌, length, ltb, String, Bool, true, false, Option, none, some, List, [], ◌∷◌,
  ◌++◌, if◌then◌else◌,
}
use distributed_processing_e.Base.Decimal.{show_nat}
use distributed_processing_e.Base.Eq.{◌==◌, string_eq}
use distributed_processing_e.Base.Map.{HashMap, get, insert}
use distributed_processing_e.Base.Outcome.{Outcome, ok, err, ok_or, ◌>>=◌}
use distributed_processing_e.Spec.{JoinType}
use distributed_processing_e.Worker.Action
use distributed_processing_e.Worker.Action.{Action, pure, fail, lift}
use distributed_processing_e.Worker.Ops.Data.{
  PartitionData, limit_bytes, spill_path, from_records, into_parts,
}
use distributed_processing_e.Worker.Ops.Value.{View, Serde, as_object}

abbrev pub keeps_left : JoinType → Bool
keeps_left JoinType.left = true
keeps_left JoinType.full = true
keeps_left _ = false

abbrev pub keeps_right : JoinType → Bool
keeps_right JoinType.right = true
keeps_right JoinType.full = true
keeps_right _ = false

-- `iter().position(p)`
abbrev pub position {ℓ} : {A : Type ℓ} → (A → Bool) → List A → Option ℕ
position p [] = none
position p (x ∷ xs) =
    let later = position p xs in
    if p x then some 0 else elim later [ none ↦ none | some i ↦ some (suc i) ]

-- `matched_right[pos] = true`
unfoldable pub mark : Option ℕ → List Bool → List Bool
mark none flags = flags
mark (some i) [] = []
mark (some zero) (b ∷ flags) = true ∷ flags
mark (some (suc i)) (b ∷ flags) = b ∷ mark (some i) flags

-- `vec![false; n]`
unfoldable pub unmarked : ℕ → List Bool
unmarked zero = []
unmarked (suc n) = false ∷ unmarked n

module _ {V M N : Type 0} (serde : Serde V M N) where
  abbrev key_text : View V M N → Outcome String
  key_text (View.string s) = ok s
  key_text (View.number n) = ok (serde.number_text n)
  key_text _ = err "JoinOp: join key must be string or number"

  unfoldable pub extract_key : M → String → Outcome String
  extract_key obj key = do
    val ← ok_or (serde.get obj key) (append "JoinOp: missing key \"" (append key "\""))
    key_text (serde.view val)

  unfoldable pub prefix_into : String → List (String × V) → M → M
  prefix_into pre [] out = out
  prefix_into pre ((k, v) ∷ entries) out =
      prefix_into pre entries (serde.insert out (append pre k) v)

  unfoldable pub prefix_fields : M → String → M
  unfolding prefix_into
  prefix_fields obj pre = prefix_into pre (serde.entries obj) serde.new_map

  unfoldable pub insert_all : List (String × V) → M → M
  insert_all [] out = out
  insert_all ((k, v) ∷ entries) out = insert_all entries (serde.insert out k v)

  unfoldable pub combine_records : M → M → M
  unfolding prefix_fields insert_all
  combine_records left right =
      insert_all (serde.entries (prefix_fields right "right_")) (prefix_fields left "left_")

  unfoldable pub combine_left_only : M → M
  unfolding prefix_fields
  combine_left_only left =
      serde.insert (prefix_fields left "left_") "right_missing" (serde.make View.null)

  unfoldable pub combine_right_only : M → M
  unfolding prefix_fields
  combine_right_only right =
      serde.insert (prefix_fields right "right_") "left_missing" (serde.make View.null)

  -- A record as an object with its key.
  abbrev pub keyed : String → V → Outcome (String × M)
  keyed key rec = do
    obj ← ok_or (as_object serde rec) "JoinOp: record is not an object"
    k ← extract_key obj key
    ok (k, obj)

  abbrev pub rows_of : Option (List M) → List M
  rows_of none = []
  rows_of (some rows) = rows

  -- The rows of the right side: by key, and in order.
  unfoldable pub index_right :
      String
      → List V
      → HashMap String (List M)
      → List (String × M)
      → Outcome (HashMap String (List M) × List (String × M))
  unfolding extract_key get insert
  index_right key [] right_map right_index = ok (right_map, right_index)
  index_right key (rec ∷ records) right_map right_index = do
    (k, obj) ← keyed key rec
    index_right key records (insert right_map k (rows_of (get right_map k) ++ obj ∷ []))
        (right_index ++ (k, obj) ∷ [])

  -- The rows that a left row meets: each marks its place, and is put out with the left row.
  unfoldable pub match_rows :
      String → M → List (String × M) → List M → List Bool × List V → List Bool × List V
  unfolding mark combine_records
  match_rows lkey lobj right_index [] s = s
  match_rows lkey lobj right_index (robj ∷ rvec) (matched, output) =
      match_rows lkey lobj right_index rvec (
        mark (position (λ row. row.0 == lkey && serde.same_map row.1 robj) right_index) matched,
        output ++ serde.make (View.object (combine_records lobj robj)) ∷ [],
      )

  abbrev pub join_row :
      JoinType
      → List (String × M)
      → String
      → M
      → Option (List M)
      → List Bool × List V
      → List Bool × List V
  join_row join_type right_index lkey lobj (some rvec) s = match_rows lkey lobj right_index rvec s
  join_row join_type right_index lkey lobj none (matched, output) =
      if keeps_left join_type
      then (matched, output ++ serde.make (View.object (combine_left_only lobj)) ∷ [])
      else (matched, output)

  unfoldable pub join_left :
      String
      → JoinType
      → HashMap String (List M)
      → List (String × M)
      → List V
      → List Bool × List V
      → Outcome (List Bool × List V)
  unfolding extract_key get match_rows combine_left_only
  join_left key join_type right_map right_index [] s = ok s
  join_left key join_type right_map right_index (lrec ∷ records) s = do
    (lkey, lobj) ← keyed key lrec
    join_left key join_type right_map right_index records
        (join_row join_type right_index lkey lobj (get right_map lkey) s)

  -- The rows of the right side that are not marked.
  unfoldable pub unmatched_rows : List (String × M) → List Bool → List V
  unfolding combine_right_only
  unmatched_rows [] matched = []
  unmatched_rows ((k, robj) ∷ rows) [] =
      serde.make (View.object (combine_right_only robj)) ∷ unmatched_rows rows []
  unmatched_rows ((k, robj) ∷ rows) (true ∷ matched) = unmatched_rows rows matched
  unmatched_rows ((k, robj) ∷ rows) (false ∷ matched) =
      serde.make (View.object (combine_right_only robj)) ∷ unmatched_rows rows matched

  abbrev pub finish : JoinType → List (String × M) → List Bool × List V → List V
  finish join_type right_index (matched, output) =
      if keeps_right join_type then output ++ unmatched_rows right_index matched else output

  -- The records of the join, of the records of both sides.
  unfoldable pub join_records : String → JoinType → List V → List V → Outcome (List V)
  unfolding index_right join_left unmatched_rows unmarked
  join_records key join_type left_records right_records = do
    (right_map, right_index) ← index_right key right_records [] []
    s ←
        join_left key join_type right_map right_index left_records
          (unmarked (length right_index), [])
    ok (finish join_type right_index s)

  abbrev pub least : ℕ → ℕ → ℕ
  least a b = if ltb b a then b else a

  unfoldable pub execute :
      String → JoinType → List (PartitionData V) → Action (List (PartitionData V))
  unfolding join_records from_records into_parts show_nat
  execute key join_type (left ∷ right ∷ []) = Action.◌>>=◌ (into_parts serde.json left) λ l.
      Action.◌>>=◌ (into_parts serde.json right) λ r.
        Action.◌>>=◌ (lift (join_records key join_type l.2 r.2)) λ output.
          Action.◌>>=◌
            (from_records serde.json (least left.partition_id right.partition_id) (limit_bytes left)
              (spill_path left) output)
            λ result. pure (result ∷ [])
  execute key join_type partitions = fail (
      append "JoinOp requires exactly two input partitions (received "
        (append (show_nat (length partitions)) ")"))

-- ===== src/Worker/Ops/Join/Relational.antt =====
-- The join of two relations, and `JoinOp` of src/worker/ops/join.rs.
use mathlib.Core.List.{append_assoc, append-nil}
use distributed_processing_e.Base.{
  ◌≡◌, refl, sym, ap, ◌∙◌, Bool, true, false, ◌||◌, String, List, [], ◌∷◌, ◌++◌, map, any, length,
  if◌then◌else◌, Bool-cases, inl, inr,
}
use distributed_processing_e.Base.Eq.{◌==◌, string_eq}
use distributed_processing_e.Base.Map.{HashMap, get, entry_of}
use distributed_processing_e.Base.Outcome.{ok}
use distributed_processing_e.Spec.{JoinType}
use distributed_processing_e.Worker.Ops.Join.{
  keeps_left, keeps_right, combine_records, combine_left_only, combine_right_only, match_rows,
  join_row, join_left, unmatched_rows, finish, join_records, unmarked,
}
use distributed_processing_e.Worker.Ops.Join.Marks.{
  mark_rows, NoRepeats, met_by, mark_rows-matching,
}
use distributed_processing_e.Worker.Ops.Join.Rows.{matching, Grouped, AllKeyed, index_right-Grouped}
use distributed_processing_e.Worker.Ops.Value.{View, Serde}

module _ {V M N : Type 0} (serde : Serde V M N) where
  abbrev object : M → V
  object m = serde.make (View.object m)

  abbrev pairs : M → List M → List V
  pairs lobj rvec = map (λ robj. object (combine_records serde lobj robj)) rvec

  -- What a left row gives: its pairs, or the row alone.
  abbrev row_output : JoinType → M → List M → List V
  row_output join_type lobj [] =
      if keeps_left join_type then object (combine_left_only serde lobj) ∷ [] else []
  row_output join_type lobj (robj ∷ rvec) = pairs lobj (robj ∷ rvec)

  abbrev pub left_output : JoinType → List (String × M) → List (String × M) → List V
  left_output join_type rrows [] = []
  left_output join_type rrows ((k, lobj) ∷ lrows) =
      row_output join_type lobj (matching k rrows) ++ left_output join_type rrows lrows

  -- The right rows that `f` does not choose.
  abbrev alone : (String × M → Bool) → List (String × M) → List V
  alone f [] = []
  alone f ((k, robj) ∷ rows) =
      let rest = alone f rows in
      if f (k, robj) then rest else object (combine_right_only serde robj) ∷ rest

  abbrev has_left : List (String × M) → String × M → Bool
  has_left lrows row = any (λ l. row.0 == l.0) lrows

  -- Each left row with each right row of its key; then what the kind of join keeps of the rest.
  abbrev pub relational_join : JoinType → List (String × M) → List (String × M) → List V
  relational_join join_type lrows rrows =
      if keeps_right join_type
      then left_output join_type rrows lrows ++ alone (has_left lrows) rrows
      else left_output join_type rrows lrows

  match_rows-mark_rows :
      (lkey : String) (lobj : M) (index : List (String × M)) (rvec : List M) (flags : List Bool)
      (out : List V)
      → match_rows serde lkey lobj index rvec (flags, out)
        ≡ (mark_rows serde.same_map index lkey rvec flags, out ++ pairs lobj rvec)
  unfolding match_rows
  match_rows-mark_rows lkey lobj index [] flags out = ap (λ o. (flags, o)) (sym (append-nil out))
  match_rows-mark_rows lkey lobj index (robj ∷ rvec) flags out =
      match_rows-mark_rows lkey lobj index rvec _
        (out ++ object (combine_records serde lobj robj) ∷ [])
      ∙ ap (λ o. (mark_rows serde.same_map index lkey (robj ∷ rvec) flags, o))
          (append_assoc out (object (combine_records serde lobj robj) ∷ []) (pairs lobj rvec))

  join_row-output :
      (join_type : JoinType) (index : List (String × M)) (lkey : String) (lobj : M) (rvec : List M)
      (flags : List Bool) (out : List V)
      → join_row serde join_type index lkey lobj (entry_of rvec) (flags, out)
        ≡ (mark_rows serde.same_map index lkey rvec flags, out ++ row_output join_type lobj rvec)
  join_row-output join_type index lkey lobj (robj ∷ rvec) flags out =
      match_rows-mark_rows lkey lobj index (robj ∷ rvec) flags out
  join_row-output join_type index lkey lobj [] flags out =
      elim (Bool-cases (keeps_left join_type)) [
        | inl kept ↦ rw kept refl
        | inr dropped ↦ rw dropped (ap (λ o. (flags, o)) (sym (append-nil out)))
      ]

  module _ (rrows : List (String × M)) where
    -- The marks that the left rows set.
    abbrev mark_all : List (String × M) → List Bool → List Bool
    mark_all [] flags = flags
    mark_all ((k, lobj) ∷ lrows) flags =
        mark_all lrows (mark_rows serde.same_map rrows k (matching k rrows) flags)

    abbrev met_all : List (String × M) → (String × M → Bool) → String × M → Bool
    met_all [] f = f
    met_all ((k, lobj) ∷ lrows) f = met_all lrows (met_by serde.same_map rrows k f)

    mark_all-met :
        ((m : M) → serde.same_map m m ≡ true)
        → NoRepeats serde.same_map [] rrows
        → (lrows : List (String × M)) (f : String × M → Bool)
        → mark_all lrows (map f rrows) ≡ map (met_all lrows f) rrows
    mark_all-met reflexive fresh [] f = refl
    mark_all-met reflexive fresh ((k, lobj) ∷ lrows) f =
        ap (mark_all lrows)
          (mark_rows-matching serde.same_map rrows reflexive k f [] rrows [] refl fresh refl)
        ∙ mark_all-met reflexive fresh lrows (met_by serde.same_map rrows k f)

    or_assoc : (a b c : Bool) → ((a || b) || c) ≡ (a || (b || c))
    or_assoc true b c = refl
    or_assoc false b c = refl

    or_false : (b : Bool) → b ≡ (b || false)
    or_false true = refl
    or_false false = refl

    met_all-has_left :
        (lrows : List (String × M)) (f : String × M → Bool) (row : String × M)
        → met_all lrows f row ≡ (f row || has_left lrows row)
    met_all-has_left [] f row = or_false (f row)
    met_all-has_left ((k, lobj) ∷ lrows) f row =
        met_all-has_left lrows (met_by serde.same_map rrows k f) row
        ∙ or_assoc (f row) (row.0 == k) (has_left lrows row)

    join_left-output :
        (key : String) (join_type : JoinType) (m : HashMap String (List M)) (left : List V)
        (lrows : List (String × M)) (flags : List Bool) (out : List V)
        → AllKeyed serde key left lrows
        → Grouped m rrows
        → join_left serde key join_type m rrows left (flags, out)
          ≡ ok (mark_all lrows flags, out ++ left_output join_type rrows lrows)
    unfolding join_left
    join_left-output key join_type m [] [] flags out h g =
        ap (λ o. ok (flags, o)) (sym (append-nil out))
    join_left-output key join_type m [] (row ∷ lrows) flags out h g = absurd h
    join_left-output key join_type m (v ∷ left) [] flags out h g = absurd h
    join_left-output key join_type m (v ∷ left) ((k, lobj) ∷ lrows) flags out h g =
        let now = row_output join_type lobj (matching k rrows) in
        rw h.0 (
          ap (join_left serde key join_type m rrows left) (
            ap (λ e. join_row serde join_type rrows k lobj e (flags, out)) (g k)
            ∙ join_row-output join_type rrows k lobj (matching k rrows) flags out)
          ∙ join_left-output key join_type m left lrows
              (mark_rows serde.same_map rrows k (matching k rrows) flags) (out ++ now) h.1 g
          ∙ ap (λ o. ok (mark_all ((k, lobj) ∷ lrows) flags, o))
              (append_assoc out now (left_output join_type rrows lrows)))

  unmatched_rows-alone :
      (f g : String × M → Bool) (rows : List (String × M))
      → ((row : String × M) → f row ≡ g row)
      → unmatched_rows serde rows (map f rows) ≡ alone g rows
  unfolding unmatched_rows
  unmatched_rows-alone f g [] same = refl
  unmatched_rows-alone f g ((k, robj) ∷ rows) same =
      let rest = unmatched_rows-alone f g rows same in
      elim (Bool-cases (f (k, robj))) [
        | inl met ↦ rw (met, sym (same (k, robj)) ∙ met) rest
        | inr other ↦
            rw (other, sym (same (k, robj)) ∙ other)
              (ap (λ r. object (combine_right_only serde robj) ∷ r) rest)
      ]

  unmarked-map : (rows : List (String × M)) → unmarked (length rows) ≡ map (λ row. false) rows
  unfolding unmarked
  unmarked-map [] = refl
  unmarked-map (row ∷ rows) = ap (λ r. false ∷ r) (unmarked-map rows)

  finish-relational :
      (join_type : JoinType) (lrows rrows : List (String × M))
      → ((m : M) → serde.same_map m m ≡ true)
      → (keeps_right join_type ≡ true → NoRepeats serde.same_map [] rrows)
      → finish serde join_type rrows
          (mark_all rrows lrows (unmarked (length rrows)), left_output join_type rrows lrows)
        ≡ relational_join join_type lrows rrows
  finish-relational join_type lrows rrows reflexive fresh =
      elim (Bool-cases (keeps_right join_type)) [
        | inr dropped ↦ rw dropped refl
        | inl kept ↦ rw kept (
            ap (λ r. left_output join_type rrows lrows ++ r)
              (ap (λ flags. unmatched_rows serde rrows (mark_all rrows lrows flags))
                  (unmarked-map rrows)
                ∙ ap (unmatched_rows serde rrows)
                    (mark_all-met rrows reflexive (fresh kept) lrows (λ row. false))
                ∙ unmatched_rows-alone (met_all rrows lrows (λ row. false)) (has_left lrows) rrows
                    (met_all-has_left rrows lrows (λ row. false))))
      ]

  pub join_records-relational_join :
      (key : String) (join_type : JoinType) (left right : List V) (lrows rrows : List (String × M))
      → ((m : M) → serde.same_map m m ≡ true)
      → AllKeyed serde key left lrows
      → AllKeyed serde key right rrows
      → (keeps_right join_type ≡ true → NoRepeats serde.same_map [] rrows)
      → join_records serde key join_type left right ≡ ok (relational_join join_type lrows rrows)
  unfolding join_records get
  join_records-relational_join key join_type left right lrows rrows reflexive hl hr fresh =
      let (m, runs, g) = index_right-Grouped serde key right rrows [] [] hr (λ k. refl) in
      rw (runs, join_left-output rrows key join_type m left lrows (unmarked (length rrows)) [] hl g)
        (ap (λ r. ok r) (finish-relational join_type lrows rrows reflexive fresh))

-- ===== src/Worker/Ops/Join/Marks.antt =====
-- The marks of a `JoinOp` of src/worker/ops/join.rs on the rows of the right side.
use mathlib.Core.Path.{subst}
use mathlib.Core.List.{append_assoc}
use distributed_processing_e.Base.{
  ℕ, ◌+◌, ◌≡◌, refl, sym, ap, ◌∙◌, Bool, true, false, ◌&&◌, ◌||◌, String, some, List, [], ◌∷◌, ◌++◌,
  map, length, Bool-cases, inl, inr, All, length-append,
}
use distributed_processing_e.Base.Eq.{◌==◌, string_eq}
use distributed_processing_e.Worker.Ops.Join.{position, mark}
use distributed_processing_e.Worker.Ops.Join.Rows.{matching}

position-append :
    {A : Type 0} (p : A → Bool) (xs : List A) (x : A) (ys : List A)
    → All (λ y. p y ≡ false) xs
    → p x ≡ true
    → position p (xs ++ x ∷ ys) ≡ some (length xs)
position-append p [] x ys none_before here = rw here refl
position-append p (y ∷ xs) x ys none_before here =
    rw (none_before.0, position-append p xs x ys none_before.1 here) refl

or_false : (b : Bool) → (b || false) ≡ b
or_false true = refl
or_false false = refl

or_true : (b : Bool) → (b || true) ≡ true
or_true true = refl
or_true false = refl

mark-append :
    (a : List Bool) (b : Bool) (c : List Bool) → mark (some (length a)) (a ++ b ∷ c) ≡ a ++ true ∷ c
unfolding mark
mark-append [] b c = refl
mark-append (x ∷ a) b c = ap (λ t. x ∷ t) (mark-append a b c)

module _ {M : Type 0} (same_map : M → M → Bool) where
  abbrev pub is_row : String → M → String × M → Bool
  is_row k obj row = row.0 == k && same_map row.1 obj

  -- No row is equal to an earlier one.
  abbrev pub NoRepeats : List (String × M) → List (String × M) → Type 0
  NoRepeats before [] = Unit
  NoRepeats before (row ∷ rows) =
      All (λ r. is_row row.0 row.1 r ≡ false) before × NoRepeats (before ++ row ∷ []) rows

  module _ (index : List (String × M)) where
    -- The marks that the rows of one left row set.
    abbrev pub mark_rows : String → List M → List Bool → List Bool
    mark_rows lkey [] flags = flags
    mark_rows lkey (obj ∷ rvec) flags =
        mark_rows lkey rvec (mark (position (is_row lkey obj) index) flags)

    abbrev pub met_by : String → (String × M → Bool) → String × M → Bool
    met_by lkey f row = f row || row.0 == lkey

    shift_marks :
        (lkey : String) (f : String × M → Bool) (rows : List (String × M)) (a : List Bool)
        (b : Bool)
        → mark_rows lkey (matching lkey rows) ((a ++ b ∷ []) ++ map f rows)
          ≡ (a ++ b ∷ []) ++ map (met_by lkey f) rows
        → mark_rows lkey (matching lkey rows) (a ++ b ∷ map f rows)
          ≡ a ++ b ∷ map (met_by lkey f) rows
    shift_marks lkey f rows a b rest =
        ap (mark_rows lkey (matching lkey rows)) (sym (append_assoc a (b ∷ []) (map f rows)))
        ∙ rest
        ∙ append_assoc a (b ∷ []) (map (met_by lkey f) rows)

    position_found :
        ((m : M) → same_map m m ≡ true)
        → (lkey k : String) (obj : M) (before rows : List (String × M)) (a : List Bool)
        → index ≡ before ++ (k, obj) ∷ rows
        → All (λ r. is_row k obj r ≡ false) before
        → length a ≡ length before
        → (k == lkey) ≡ true
        → position (is_row lkey obj) index ≡ some (length a)
    position_found reflexive lkey k obj before rows a split fresh len same =
        ap (position (is_row lkey obj)) split
        ∙ position-append (is_row lkey obj) before (k, obj) rows
            (subst (λ k. All (λ r. is_row k obj r ≡ false) before)
              ((string_eq.same_iff k lkey).0 same) fresh)
            (rw (same, reflexive obj) refl)
        ∙ ap (λ (n : ℕ). some n) (sym len)

    pub mark_rows-matching :
        ((m : M) → same_map m m ≡ true)
        → (lkey : String) (f : String × M → Bool) (before rows : List (String × M)) (a : List Bool)
        → index ≡ before ++ rows
        → NoRepeats before rows
        → length a ≡ length before
        → mark_rows lkey (matching lkey rows) (a ++ map f rows) ≡ a ++ map (met_by lkey f) rows
    mark_rows-matching reflexive lkey f before [] a split fresh len = refl
    mark_rows-matching reflexive lkey f before ((k, obj) ∷ rows) a split fresh len =
        let rest : (b : Bool)
            → mark_rows lkey (matching lkey rows) (a ++ b ∷ map f rows)
              ≡ a ++ b ∷ map (met_by lkey f) rows =
          λ b. shift_marks lkey f rows a b (
            mark_rows-matching reflexive lkey f (before ++ (k, obj) ∷ []) rows (a ++ b ∷ [])
              (split ∙ sym (append_assoc before ((k, obj) ∷ []) rows)) fresh.1
              (length-append a (b ∷ [])
                ∙ ap (λ n. n + 1) len
                ∙ sym (length-append before ((k, obj) ∷ [])))) in
        elim (Bool-cases (k == lkey)) [
          | inr other ↦ rw other (
              rest (f (k, obj))
              ∙ ap (λ b. a ++ b ∷ map (met_by lkey f) rows) (sym (or_false (f (k, obj)))))
          | inl same ↦ rw same (
              ap (λ o. mark_rows lkey (matching lkey rows) (mark o (a ++ f (k, obj) ∷ map f rows)))
                (position_found reflexive lkey k obj before rows a split fresh.0 len same)
              ∙ ap (mark_rows lkey (matching lkey rows)) (mark-append a (f (k, obj)) (map f rows))
              ∙ rest true
              ∙ ap (λ b. a ++ b ∷ map (met_by lkey f) rows) (sym (or_true (f (k, obj)))))
        ]

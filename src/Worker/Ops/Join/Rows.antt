-- ===== src/Worker/Ops/Join/Rows.antt =====
-- The rows of the right side of a `JoinOp` of src/worker/ops/join.rs, by key.
use mathlib.Core.Path.{subst}
use mathlib.Core.List.{append_assoc, append-nil}
use distributed_processing_e.Base.{
  ◌≡◌, refl, sym, ap, ◌∙◌, String, some, List, [], ◌∷◌, ◌++◌, if◌then◌else◌, Bool-cases, inl, inr,
}
use distributed_processing_e.Base.Eq.{◌==◌, string_eq}
use distributed_processing_e.Base.Map.{HashMap, get, insert, get-insert, entry_of, entry_of-snoc}
use distributed_processing_e.Base.Outcome.{ok}
use distributed_processing_e.Worker.Ops.Join.{keyed, rows_of, index_right}
use distributed_processing_e.Worker.Ops.Value.{Serde}

module _ {M : Type 0} where
  -- The rows with a key, in order.
  abbrev pub matching : String → List (String × M) → List M
  matching k [] = []
  matching k ((j, obj) ∷ rows) = let rest = matching k rows in if j == k then obj ∷ rest else rest

  pub matching-append :
      (k : String) (xs ys : List (String × M))
      → matching k (xs ++ ys) ≡ matching k xs ++ matching k ys
  matching-append k [] ys = refl
  matching-append k ((j, obj) ∷ xs) ys = elim (Bool-cases (j == k)) [
    | inl same ↦ rw same (ap (λ rest. obj ∷ rest) (matching-append k xs ys))
    | inr other ↦ rw other (matching-append k xs ys)
  ]

  -- The map has each key with its rows.
  abbrev pub Grouped : HashMap String (List M) → List (String × M) → Type 0
  Grouped m rows = (k : String) → get m k ≡ entry_of (matching k rows)

module _ {V M N : Type 0} (serde : Serde V M N) (key : String) where
  -- Each record is an object with a key.
  abbrev pub AllKeyed : List V → List (String × M) → Type 0
  AllKeyed [] [] = Unit
  AllKeyed [] (row ∷ rows) = ⊥
  AllKeyed (v ∷ vs) [] = ⊥
  AllKeyed (v ∷ vs) (row ∷ rows) = (keyed serde key v ≡ ok row) × AllKeyed vs rows

  rows_of-entry_of : (xs : List M) → rows_of serde (entry_of xs) ≡ xs
  rows_of-entry_of [] = refl
  rows_of-entry_of (x ∷ xs) = refl

  insert-Grouped :
      (m : HashMap String (List M)) (rows : List (String × M)) (k : String) (obj : M)
      → Grouped m rows
      → Grouped (insert m k (rows_of serde (get m k) ++ obj ∷ [])) (rows ++ (k, obj) ∷ [])
  insert-Grouped m rows k obj h j =
      get-insert m k (rows_of serde (get m k) ++ obj ∷ []) j ∙ elim (Bool-cases (k == j)) [
        | inl same ↦ rw same (
            ap (λ xs. some (xs ++ obj ∷ []))
              (ap (rows_of serde) (h k)
                ∙ rows_of-entry_of (matching k rows)
                ∙ ap (λ k. matching k rows) ((string_eq.same_iff k j).0 same))
            ∙ entry_of-snoc (matching j rows) obj
            ∙ ap entry_of (sym (matching-append j rows ((k, obj) ∷ []) ∙ rw same refl)))
        | inr other ↦ rw other (
            h j
            ∙ ap entry_of (
                sym (append-nil (matching j rows))
                ∙ sym (matching-append j rows ((k, obj) ∷ []) ∙ rw other refl)))
      ]

  pub index_right-Grouped :
      (vs : List V) (rows : List (String × M)) (m : HashMap String (List M))
      (index : List (String × M))
      → AllKeyed vs rows
      → Grouped m index
      → (m' : HashMap String (List M)) × (index_right serde key vs m index ≡ ok (m', index ++ rows))
        × Grouped m' (index ++ rows)
  unfolding index_right
  index_right-Grouped [] [] m index h g = (
    m,
    ap (λ i. ok (m, i)) (sym (append-nil index)),
    subst (Grouped m) (sym (append-nil index)) g,
  )
  index_right-Grouped [] (row ∷ rows) m index h g = absurd h
  index_right-Grouped (v ∷ vs) [] m index h g = absurd h
  index_right-Grouped (v ∷ vs) ((k, obj) ∷ rows) m index h g =
      let (m', runs, g') =
        index_right-Grouped vs rows (insert m k (rows_of serde (get m k) ++ obj ∷ []))
          (index ++ (k, obj) ∷ []) h.1 (insert-Grouped m index k obj g) in
      (
        m',
        rw h.0 (runs ∙ ap (λ i. ok (m', i)) (append_assoc index ((k, obj) ∷ []) rows)),
        subst (Grouped m') (append_assoc index ((k, obj) ∷ []) rows) g',
      )

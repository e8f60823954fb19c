-- ===== src/Base/Map.antt =====
-- `std::collections::HashMap` as an association list. The order of the entries stands for the
-- iteration order, which Rust leaves open: what is proved holds for every list of entries.
use mathlib.Core.Option.{some-injective, none-ne-some}
use distributed_processing_e.Base.{
  ap, All, sym, ◌∙◌, ◌≢◌, ◌⊎◌, inl, inr, Bool-cases, ◌≡◌, refl, Option, none, some, List, [], ◌∷◌,
  ◌++◌, map, arith, if◌then◌else◌,
}
use distributed_processing_e.Base.Eq.{Eq, ◌==◌}

abbrev pub HashMap {ℓ κ} : Type ℓ → Type κ → Type (ℓ ⊔ κ)
HashMap K V = List (K × V)

module _ {ℓ κ} {K : Type ℓ} {V : Type κ} ⦃e : Eq K⦄ where
  unfoldable pub get : HashMap K V → K → Option V
  get [] k = none
  get ((j, v) ∷ m) k = if j == k then some v else get m k

  unfoldable pub insert : HashMap K V → K → V → HashMap K V
  insert [] k v = (k, v) ∷ []
  insert ((j, w) ∷ m) k v = if j == k then (k, v) ∷ m else (j, w) ∷ insert m k v

  unfoldable pub remove : HashMap K V → K → HashMap K V
  remove [] k = []
  remove ((j, w) ∷ m) k = let rest = remove m k in if j == k then rest else (j, w) ∷ rest

  -- `if let Some(v) = map.get_mut(k)`: a write through the reference.
  unfoldable pub modify : HashMap K V → K → (V → V) → HashMap K V
  modify [] k f = []
  modify ((j, w) ∷ m) k f = if j == k then (j, f w) ∷ m else (j, w) ∷ modify m k f

  pub get-insert :
      (m : HashMap K V) (k : K) (v : V) (j : K)
      → get (insert m k v) j ≡ (if k == j then some v else get m j)
  unfolding get insert
  get-insert [] k v j = refl
  get-insert ((i, w) ∷ m) k v j =
      ground (arith, e.same_iff k j, e.same_iff i k, e.same_iff i j, get-insert m k v j)

  pub get-remove :
      (m : HashMap K V) (k j : K) → get (remove m k) j ≡ (if k == j then none else get m j)
  unfolding get remove
  get-remove [] k j = ground arith
  get-remove ((i, w) ∷ m) k j =
      ground (arith, e.same_iff k j, e.same_iff i k, e.same_iff i j, get-remove m k j)

  pub get-modify :
      (m : HashMap K V) (k : K) (f : V → V) (j : K)
      → get (modify m k f) j
        ≡ (if k == j then elim (get m j) [ none ↦ none | some v ↦ some (f v) ] else get m j)
  unfolding get modify
  get-modify [] k f j = ground arith
  get-modify ((i, w) ∷ m) k f j =
      ground (arith, e.same_iff k j, e.same_iff i k, e.same_iff i j, get-modify m k f j)

module _ {ℓ κ} {K : Type ℓ} {V : Type κ} where
  abbrev pub keys : HashMap K V → List K
  keys m = map (λ p. p.0) m

  abbrev pub values : HashMap K V → List V
  values m = map (λ p. p.1) m

-- What a map of groups has for a key: the group, where there is anything in it.
abbrev pub entry_of {ℓ} : {A : Type ℓ} → List A → Option (List A)
entry_of [] = none
entry_of (x ∷ xs) = some (x ∷ xs)

pub entry_of-snoc {ℓ} :
    {A : Type ℓ} (xs : List A) (x : A) → some (xs ++ x ∷ []) ≡ entry_of (xs ++ x ∷ [])
entry_of-snoc [] x = refl
entry_of-snoc (y ∷ xs) x = refl

-- Every key has one entry, as in a real map.
module _ {ℓ κ} {K : Type ℓ} {V : Type κ} ⦃e : Eq K⦄ where
  abbrev pub Distinct : HashMap K V → Type κ
  Distinct [] = Unit
  Distinct ((k, v) ∷ m) = (get m k ≡ none) × Distinct m

  pub insert-Distinct : (m : HashMap K V) (k : K) (v : V) → Distinct m → Distinct (insert m k v)
  unfolding insert get
  insert-Distinct [] k v h = (refl, tt)
  insert-Distinct ((j, w) ∷ m) k v h =
      ground (arith, e.same_iff j k, e.same_iff k j, get-insert m k v j, insert-Distinct m k v h.1)

  pub modify-Distinct : (m : HashMap K V) (k : K) (f : V → V) → Distinct m → Distinct (modify m k f)
  unfolding modify get
  modify-Distinct [] k f h = tt
  modify-Distinct ((j, w) ∷ m) k f h =
      ground (arith, e.same_iff j k, e.same_iff k j, get-modify m k f j, modify-Distinct m k f h.1)

  pub remove-Distinct : (m : HashMap K V) (k : K) → Distinct m → Distinct (remove m k)
  unfolding remove get
  remove-Distinct [] k h = tt
  remove-Distinct ((j, w) ∷ m) k h =
      ground (arith, e.same_iff j k, e.same_iff k j, get-remove m k j, remove-Distinct m k h.1)

-- Where a value that is found after a write comes from.
module _ {ℓ κ} {K : Type ℓ} {V : Type κ} ⦃e : Eq K⦄ where
  pub insert_cases :
      (m : HashMap K V) (k : K) (v : V) (j : K) {u : V}
      → get (insert m k v) j ≡ some u
      → ((k ≡ j) × (v ≡ u)) ⊎ (get m j ≡ some u)
  insert_cases m k v j h = elim (Bool-cases (k == j)) [
    | inl same ↦
        inl (
          (e.same_iff k j).0 same,
          some-injective _ _ ((rw same at (sym (get-insert m k v j))) ∙ h),
        )
    | inr other ↦ inr ((rw other at (sym (get-insert m k v j))) ∙ h)
  ]

  pub modify_cases :
      (m : HashMap K V) (k : K) (f : V → V) (j : K) {u : V}
      → get (modify m k f) j ≡ some u
      → (w : V) × (get m j ≡ some w) × (((k ≡ j) × (f w ≡ u)) ⊎ (w ≡ u))
  modify_cases m k f j {u} h = elim (Bool-cases (k == j)) [
    | inl same ↦
        let (w, found, made) = written (get m j) ((rw same at (sym (get-modify m k f j))) ∙ h) in
        (w, found, inl ((e.same_iff k j).0 same, made))
    | inr other ↦ (u, (rw other at (sym (get-modify m k f j))) ∙ h, inr refl)
  ]
    where
      written :
          (o : Option V)
          → (elim o [ none ↦ none | some v ↦ some (f v) ]) ≡ some u
          → (w : V) × (o ≡ some w) × (f w ≡ u)
      written none h = absurd (none-ne-some u h)
      written (some w) h = (w, refl, some-injective _ _ h)

  pub get-insert_self : (m : HashMap K V) (k : K) (v : V) → get (insert m k v) k ≡ some v
  get-insert_self m k v = get-insert m k v k ∙ rw ((e.same_iff k k).1 refl)

  pub get-modify_self :
      (m : HashMap K V) (k : K) (f : V → V) {v : V}
      → get m k ≡ some v
      → get (modify m k f) k ≡ some (f v)
  get-modify_self m k f h = get-modify m k f k ∙ rw ((e.same_iff k k).1 refl, h)

  pub get-modify_ne :
      (m : HashMap K V) (k : K) (f : V → V) (j : K) → k ≢ j → get (modify m k f) j ≡ get m j
  get-modify_ne m k f j h = elim (Bool-cases (k == j)) [
    | inl same ↦ absurd (h ((e.same_iff k j).0 same))
    | inr other ↦ get-modify m k f j ∙ rw other
  ]

  pub get-insert_ne :
      (m : HashMap K V) (k : K) (v : V) (j : K) → k ≢ j → get (insert m k v) j ≡ get m j
  get-insert_ne m k v j h = elim (Bool-cases (k == j)) [
    | inl same ↦ absurd (h ((e.same_iff k j).0 same))
    | inr other ↦ get-insert m k v j ∙ rw other
  ]

  pub get-remove_ne : (m : HashMap K V) (k j : K) → k ≢ j → get (remove m k) j ≡ get m j
  get-remove_ne m k j h = elim (Bool-cases (k == j)) [
    | inl same ↦ absurd (h ((e.same_iff k j).0 same))
    | inr other ↦ get-remove m k j ∙ rw other
  ]

  -- What holds of every value that is found holds of every entry.
  pub Distinct-All {ν} :
      (P : K × V → Type ν) (m : HashMap K V)
      → Distinct m
      → ((k : K) (v : V) → get m k ≡ some v → P (k, v))
      → All P m
  unfolding get
  Distinct-All P [] d found = tt
  Distinct-All P ((j, w) ∷ m) d found = (
    found j w (rw ((e.same_iff j j).1 refl) refl),
    Distinct-All P m d.1 (λ k v there. found k v (later k v there)),
  )
    where
      later : (k : K) (v : V) → get m k ≡ some v → (if j == k then some w else get m k) ≡ some v
      later k v there = elim (Bool-cases (j == k)) [
        | inl same ↦
            absurd (none-ne-some v (sym d.0 ∙ ap (get m) ((e.same_iff j k).0 same) ∙ there))
        | inr other ↦ rw other there
      ]

-- ===== src/Worker/Ops/MapOp/Texts.antt =====
-- `MapOp` of src/worker/ops/map.rs with the functions "uppercase" and "lowercase".
use distributed_processing_e.Base.{
  ℕ, zero, suc, ◌+◌, ◌<◌, ◌≡◌, refl, sym, ap, ◌∙◌, String, Bool, List, [], ◌∷◌, Among, inl, inr,
  arith,
}
use distributed_processing_e.Base.Outcome.{Outcome, ok, map_all, ◌>>=◌}
use distributed_processing_e.Worker.Ops.MapOp.{apply_entries, apply_case, apply_fn, apply_record}
use distributed_processing_e.Worker.Ops.Value.{View, Serde, Std, IsSerde}

module _ {V M N : Type 0} (serde : Serde V M N) where
  -- The second value is the first with `text` in the place of each text, however deep: null, booleans
  -- and numbers stay, an array keeps its order and length, and an object gets the new values at the keys
  -- of its entries.
  mutual
    pub data Maps (text : String → String) : V → V → Type 0 where
      nulls : (v : V) → serde.view v ≡ View.null → Maps text v v
      bools : (v : V) (b : Bool) → serde.view v ≡ View.bool b → Maps text v v
      numbers : (v : V) (n : N) → serde.view v ≡ View.number n → Maps text v v
      texts :
          (v : V) (s : String)
          → serde.view v ≡ View.string s
          → Maps text v (serde.make (View.string (text s)))
      arrays :
          (v : V) (xs ys : List V)
          → serde.view v ≡ View.array xs
          → AllMaps text xs ys
          → Maps text v (serde.make (View.array ys))
      objects :
          (v : V) (m m' : M)
          → serde.view v ≡ View.object m
          → Replaced text m (serde.entries m) m'
          → Maps text v (serde.make (View.object m'))

    pub data AllMaps (text : String → String) : List V → List V → Type 0 where
      none_left : AllMaps text [] []
      one_more :
          (x y : V) (xs ys : List V)
          → Maps text x y
          → AllMaps text xs ys
          → AllMaps text (x ∷ xs) (y ∷ ys)

    -- The third is the first map with a new value at the key of each of the entries.
    pub data Replaced (text : String → String) : M → List (String × V) → M → Type 0 where
      complete : (m : M) → Replaced text m [] m
      replace :
          (m m' : M) (key : String) (x y : V) (rest : List (String × V))
          → Maps text x y
          → Replaced text (serde.insert m key y) rest m'
          → Replaced text m ((key, x) ∷ rest) m'

  abbrev Mapped : (String → String) → (V → Outcome V) → V → Type 0
  Mapped text f v = (w : V) × (f v ≡ ok w) × Maps text v w

  map_all-AllMaps :
      (text : String → String) (f : V → Outcome V) (xs : List V)
      → ((x : V) → Among x xs → Mapped text f x)
      → (ys : List V) × (map_all f xs ≡ ok ys) × AllMaps text xs ys
  unfolding map_all
  map_all-AllMaps text f [] each = ([], refl, AllMaps.none_left)
  map_all-AllMaps text f (x ∷ xs) each =
      let (y, now, maps) = each x (inl refl) in
      let (ys, rest, all) = map_all-AllMaps text f xs (λ z m. each z (inr m)) in
      (
        y ∷ ys,
        ap (λ o. o >>= λ y. map_all f xs >>= λ ys. ok (y ∷ ys)) now
            ∙ ap (λ o. o >>= λ ys. ok (y ∷ ys)) rest,
        AllMaps.one_more x y xs ys maps all,
      )

  module _ (std : Std) where
    apply_entries-Replaced :
        (text : String → String) (f : V → Outcome V) (m : M) (entries : List (String × V))
        → ((k : String) (x : V) → Among (k, x) entries → Mapped text f x)
        → (m' : M) × (apply_entries serde std f m entries ≡ ok m') × Replaced text m entries m'
    unfolding apply_entries
    apply_entries-Replaced text f m [] each = (m, refl, Replaced.complete m)
    apply_entries-Replaced text f m ((k, x) ∷ entries) each =
        let (y, now, maps) = each k x (inl refl) in
        let (m', rest, all) =
          apply_entries-Replaced text f (serde.insert m k y) entries
            (λ j z among. each j z (inr among)) in
        (
          m',
          ap (λ o. o >>= λ w. apply_entries serde std f (serde.insert m k w) entries) now ∙ rest,
          Replaced.replace m m' k x y entries maps all,
        )

    -- The function replaces texts and keeps numbers.
    record IsTextual (func : String) (text : String → String) : Type 0 where
      on_text :
          (f : V → Outcome V) (v : V) (s : String)
          → apply_case serde std f func v (View.string s) ≡ ok (serde.make (View.string (text s)))
      on_number :
          (f : V → Outcome V) (v : V) (n : N)
          → apply_case serde std f func v (View.number n) ≡ ok (serde.make (View.number n))

    module _ (laws : IsSerde serde) where
      apply_case-Maps :
          (func : String) (text : String → String)
          → IsTextual func text
          → (f : V → Outcome V) (v : V) (x : View V M N) → serde.view v ≡ x
          → ((w : V) → serde.depth w < serde.depth v → Mapped text f w)
          → (w : V) × (apply_case serde std f func v x ≡ ok w) × Maps text v w
      apply_case-Maps func text rule f v View.null e deeper = (v, refl, Maps.nulls v e)
      apply_case-Maps func text rule f v (View.bool b) e deeper = (v, refl, Maps.bools v b e)
      apply_case-Maps func text rule f v (View.number n) e deeper = (
        v,
        rule.on_number f v n ∙ ap (λ v. ok v) (ap serde.make (sym e) ∙ laws.make-view v),
        Maps.numbers v n e,
      )
      apply_case-Maps func text rule f v (View.string s) e deeper =
          (serde.make (View.string (text s)), rule.on_text f v s, Maps.texts v s e)
      apply_case-Maps func text rule f v (View.array xs) e deeper =
          let (ys, out, all) =
            map_all-AllMaps text f xs (λ w m. deeper w (laws.depth_array v w xs e m)) in
          (
            serde.make (View.array ys),
            ap (λ o. o >>= λ out. ok (serde.make (View.array out))) out,
            Maps.arrays v xs ys e all,
          )
      apply_case-Maps func text rule f v (View.object m) e deeper =
          let (m', out, all) =
            apply_entries-Replaced text f m (serde.entries m)
              (λ k w among. deeper w (laws.depth_object v w k m e among)) in
          (
            serde.make (View.object m'),
            ap (λ o. o >>= λ m'. ok (serde.make (View.object m'))) out,
            Maps.objects v m m' e all,
          )

      apply_fn-Maps :
          (func : String) (text : String → String)
          → IsTextual func text
          → (fuel : ℕ) (v : V) → serde.depth v < fuel
          → (w : V) × (apply_fn serde std fuel v func ≡ ok w) × Maps text v w
      unfolding apply_fn
      apply_fn-Maps func text rule zero v lt = absurd (omega arith)
      apply_fn-Maps func text rule (suc fuel) v lt =
          apply_case-Maps func text rule (λ w. apply_fn serde std fuel w func) v (serde.view v) refl
            (λ w deeper. apply_fn-Maps func text rule fuel w (omega arith))

      -- The map with "uppercase" succeeds on every record, and what it returns is the record with each text
      -- in upper case, however deep it stands in arrays and in the values of objects: null, booleans and
      -- numbers stay, arrays are mapped element by element, and in an object the new value of each entry is
      -- inserted at its key. With "lowercase" each text is in lower case.
      pub apply_record-Maps :
          (v : V)
          → ((w : V) × (apply_record serde std "uppercase" v ≡ ok w) × Maps std.to_uppercase v w)
            × ((w : V) × (apply_record serde std "lowercase" v ≡ ok w) × Maps std.to_lowercase v w)
      apply_record-Maps v = (
        apply_fn-Maps "uppercase" std.to_uppercase
            (record { on_text = λ f v s. refl; on_number = λ f v n. refl }) (serde.depth v + 1) v
            (omega arith),
        apply_fn-Maps "lowercase" std.to_lowercase
            (record { on_text = λ f v s. refl; on_number = λ f v n. refl }) (serde.depth v + 1) v
            (omega arith),
      )

-- ===== src/Worker/Ops/MapOp/Nesting.antt =====
-- How deep the recursion of `MapOp` of src/worker/ops/map.rs goes.
use distributed_processing_e.Base.{
  ℕ, zero, suc, ◌<◌, ◌+◌, ◌≡◌, refl, ap, ◌∙◌, String, List, [], ◌∷◌, Among, inl, inr, arith,
}
use distributed_processing_e.Base.Outcome.{Outcome, ok, err, map_all, ◌>>=◌}
use distributed_processing_e.Worker.Ops.MapOp.{apply_entries, apply_case, apply_fn, apply_record}
use distributed_processing_e.Worker.Ops.Value.{View, Serde, Std, IsSerde}

pub map_all-same :
    {A : Type 0} (f g : A → Outcome A) (xs : List A)
    → ((x : A) → Among x xs → f x ≡ g x)
    → map_all f xs ≡ map_all g xs
unfolding map_all
map_all-same f g [] same = refl
map_all-same f g (x ∷ xs) same =
    ap (λ o. o >>= λ y. map_all f xs >>= λ ys. ok (y ∷ ys)) (same x (inl refl))
    ∙ ap (λ o. g x >>= λ y. o >>= λ ys. ok (y ∷ ys)) (map_all-same f g xs (λ y m. same y (inr m)))

module _ {V M N : Type 0} (serde : Serde V M N) (std : Std) (laws : IsSerde serde) where
  apply_entries-same :
      (f g : V → Outcome V) (m : M) (entries : List (String × V))
      → ((k : String) (v : V) → Among (k, v) entries → f v ≡ g v)
      → apply_entries serde std f m entries ≡ apply_entries serde std g m entries
  unfolding apply_entries
  apply_entries-same f g m [] same = refl
  apply_entries-same f g m ((k, v) ∷ entries) same =
      after_value (f v) (g v) (same k v (inl refl)) (λ w.
        apply_entries-same f g (serde.insert m k w) entries (λ j u among. same j u (inr among)))
    where
      after_value :
          (a b : Outcome V)
          → a ≡ b
          → ((w : V)
              → apply_entries serde std f (serde.insert m k w) entries
                ≡ apply_entries serde std g (serde.insert m k w) entries)
          → (a >>= λ w. apply_entries serde std f (serde.insert m k w) entries)
            ≡ (b >>= λ w. apply_entries serde std g (serde.insert m k w) entries)
      after_value (err e) b eq rest =
          ap (λ o. o >>= λ w. apply_entries serde std g (serde.insert m k w) entries) eq
      after_value (ok w) b eq rest =
          rest w ∙ ap (λ o. o >>= λ w. apply_entries serde std g (serde.insert m k w) entries) eq

  apply_case-same :
      (func : String) (f g : V → Outcome V) (v : V) (x : View V M N)
      → serde.view v ≡ x
      → ((w : V) → serde.depth w < serde.depth v → f w ≡ g w)
      → apply_case serde std f func v x ≡ apply_case serde std g func v x
  apply_case-same func f g v View.null e same = refl
  apply_case-same func f g v (View.bool b) e same = refl
  apply_case-same func f g v (View.number n) e same = refl
  apply_case-same func f g v (View.string s) e same = refl
  apply_case-same func f g v (View.array arr) e same =
      ap (λ o. o >>= λ out. ok (serde.make (View.array out)))
        (map_all-same f g arr (λ w m. same w (laws.depth_array v w arr e m)))
  apply_case-same func f g v (View.object m) e same =
      ap (λ o. o >>= λ m'. ok (serde.make (View.object m')))
        (apply_entries-same f g m (serde.entries m)
          (λ k w among. same w (laws.depth_object v w k m e among)))

  any_fuel :
      (func : String) (fuel fuel' : ℕ) (v : V)
      → serde.depth v < fuel
      → serde.depth v < fuel'
      → apply_fn serde std fuel v func ≡ apply_fn serde std fuel' v func
  unfolding apply_fn
  any_fuel func zero fuel' v lt lt' = absurd (omega arith)
  any_fuel func (suc fuel) zero v lt lt' = absurd (omega arith)
  any_fuel func (suc fuel) (suc fuel') v lt lt' =
      apply_case-same func (λ w. apply_fn serde std fuel w func)
        (λ w. apply_fn serde std fuel' w func) v (serde.view v) refl
        (λ w deeper. any_fuel func fuel fuel' w (omega arith) (omega arith))

  -- What `MapOp` makes of a record does not depend on how deep its recursion may go, from one level more
  -- than the record nests on: the recursion ends.
  apply_fn_ends :
      (func : String) (fuel : ℕ) (v : V)
      → serde.depth v < fuel
      → apply_fn serde std fuel v func ≡ apply_record serde std func v
  apply_fn_ends func fuel v enough = any_fuel func fuel (serde.depth v + 1) v enough (omega arith)

-- ===== src/Worker/Ops/Shuffle/Buckets.antt =====
-- The buckets that `ShuffleByKeyOp` of src/worker/ops/shuffle.rs fills.
use mathlib.Core.List.{append_assoc, append-nil}
use distributed_processing_e.Base.{
  ℕ, zero, suc, ◌+◌, ◌%◌, ◌≤◌, ◌<◌, ◌≡◌, ◌≢◌, refl, sym, ap, ◌∙◌, eqb, String, List, [], ◌∷◌, ◌++◌,
  map, keep, arith, if◌then◌else◌, Bool-cases, inl, inr,
}
use distributed_processing_e.Base.Range.{range}
use distributed_processing_e.Worker.Ops.Shuffle.{new_buckets, push_at, compute_bucket, scatter}
use distributed_processing_e.Worker.Ops.Value.{Serde, Std}

mod_bound : (x n : ℕ) → n ≢ 0 → x % n < n
mod_bound x n h = grind arith

map-range :
    {A : Type 0} (f g : ℕ → A) (start n : ℕ)
    → ((i : ℕ) → start ≤ i → f i ≡ g i)
    → map f (range start n) ≡ map g (range start n)
map-range f g start zero h = refl
map-range f g start (suc n) h =
    ap (λ x. x ∷ map f (range (suc start) n)) (h start (omega arith))
    ∙ ap (λ xs. g start ∷ xs) (map-range f g (suc start) n (λ i le. h i (omega arith)))

new_buckets-range :
    {A : Type 0} (start n : ℕ) → new_buckets {A = A} n ≡ map (λ i. []) (range start n)
unfolding new_buckets
new_buckets-range start zero = refl
new_buckets-range start (suc n) = ap (λ bs. [] ∷ bs) (new_buckets-range (suc start) n)

module _ {A : Type 0} where
  abbrev pushed_to : ℕ → A → (ℕ → List A) → ℕ → List A
  pushed_to k x f i = if eqb k i then f i ++ x ∷ [] else f i

  push_at-range :
      (k start n : ℕ) (x : A) (f : ℕ → List A)
      → push_at k x (map f (range start n)) ≡ map (pushed_to (start + k) x f) (range start n)
  unfolding push_at
  push_at-range k start zero x f = refl
  push_at-range zero start (suc n) x f =
      ap (λ b. b ∷ map f (range (suc start) n)) (ground arith)
      ∙ ap (λ bs. pushed_to (start + 0) x f start ∷ bs)
          (map-range f (pushed_to (start + 0) x f) (suc start) n (λ i le. ground arith))
  push_at-range (suc k) start (suc n) x f =
      ap (λ b. b ∷ push_at k x (map f (range (suc start) n))) (ground arith)
      ∙ ap (λ bs. pushed_to (start + suc k) x f start ∷ bs)
          (push_at-range k (suc start) n x f
            ∙ ap (λ t. map (pushed_to t x f) (range (suc start) n)) (omega arith))

module _ {V M N : Type 0} (serde : Serde V M N) (std : Std) (key : String) (total : ℕ) where
  -- The records whose key hashes to a bucket.
  abbrev pub bucket_of : List V → ℕ → List V
  bucket_of records i = keep (λ r. eqb (compute_bucket serde std r key total) i) records

  pub scatter-append :
      (xs ys : List V) (buckets : List (List V))
      → scatter serde std key total (xs ++ ys) buckets
        ≡ scatter serde std key total ys (scatter serde std key total xs buckets)
  unfolding scatter
  scatter-append [] ys buckets = refl
  scatter-append (x ∷ xs) ys buckets =
      scatter-append xs ys (push_at (compute_bucket serde std x key total) x buckets)

  pushed_to-bucket_of :
      (f : ℕ → List V) (r : V) (records : List V) (i : ℕ)
      → pushed_to (compute_bucket serde std r key total) r f i ++ bucket_of records i
        ≡ f i ++ bucket_of (r ∷ records) i
  pushed_to-bucket_of f r records i =
      elim (Bool-cases (eqb (compute_bucket serde std r key total) i)) [
        | inl here ↦ rw here (append_assoc (f i) (r ∷ []) (bucket_of records i))
        | inr other ↦ rw other refl
      ]

  scatter-range :
      (records : List V) (f : ℕ → List V)
      → scatter serde std key total records (map f (range 0 total))
        ≡ map (λ i. f i ++ bucket_of records i) (range 0 total)
  unfolding scatter
  scatter-range [] f = map-range f (λ i. f i ++ []) 0 total (λ i le. sym (append-nil (f i)))
  scatter-range (r ∷ records) f =
      ap (scatter serde std key total records) (
        push_at-range (compute_bucket serde std r key total) 0 total r f
        ∙ ap (λ t. map (pushed_to t r f) (range 0 total)) (omega arith))
      ∙ scatter-range records (pushed_to (compute_bucket serde std r key total) r f)
      ∙ map-range _ _ 0 total (λ i le. pushed_to-bucket_of f r records i)

  -- Each bucket gets the records that hash to it, in order.
  pub scatter-bucket_of :
      (records : List V)
      → scatter serde std key total records (new_buckets total)
        ≡ map (bucket_of records) (range 0 total)
  scatter-bucket_of records =
      ap (scatter serde std key total records) (new_buckets-range 0 total)
      ∙ scatter-range records (λ i. [])

  pub compute_bucket-lt : (r : V) → total ≢ 0 → compute_bucket serde std r key total < total
  unfolding compute_bucket
  compute_bucket-lt r positive = mod_bound _ total positive

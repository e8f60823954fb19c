-- ===== src/Base/Range.antt =====
-- `start..start + count` and `enumerate()`.
use distributed_processing_e.Base.{
  ℕ, zero, suc, ◌+◌, ◌<◌, ◌≡◌, refl, ap, some, List, [], ◌∷◌, arith, length, get_elem?,
}

abbrev pub range : ℕ → ℕ → List ℕ
range start zero = []
range start (suc count) = start ∷ range (suc start) count

abbrev pub enumerate {ℓ} : {A : Type ℓ} → ℕ → List A → List (ℕ × A)
enumerate i [] = []
enumerate i (x ∷ xs) = (i, x) ∷ enumerate (suc i) xs

pub length-range : (start count : ℕ) → length (range start count) ≡ count
length-range start zero = refl
length-range start (suc count) = ap suc (length-range (suc start) count)

pub get_elem?-range :
    (start count i : ℕ) → i < count → get_elem? (range start count) i ≡ some (start + i)
get_elem?-range start zero i h = elim h [ ]
get_elem?-range start (suc count) zero h = ap (λ (n : ℕ). some n) (omega arith)
get_elem?-range start (suc count) (suc i) h =
    ground (arith, get_elem?-range (suc start) count i (omega arith))

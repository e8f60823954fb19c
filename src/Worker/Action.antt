-- ===== src/Worker/Action.antt =====
-- Code that works on the disk and may fail: it takes the disk, and returns its result with the disk.
use distributed_processing_e.Base.{String, List, [], ◌∷◌}
use distributed_processing_e.Base.Outcome.{Outcome, ok, err}
use distributed_processing_e.Worker.Disk.{Disk, after}

abbrev pub Action {ℓ} : Type ℓ → Type ℓ
Action A = Disk → Outcome A × Disk

abbrev pub pure {ℓ} : {A : Type ℓ} → A → Action A
pure a d = (ok a, d)

abbrev pub fail {ℓ} : {A : Type ℓ} → String → Action A
fail e d = (err e, d)

-- `?` on a result that is there already
abbrev pub lift {ℓ} : {A : Type ℓ} → Outcome A → Action A
lift r d = (r, d)

infixl 5 ◌>>=◌ ◌>>◌
abbrev pub ◌>>=◌ {ℓ κ} : {A : Type ℓ} {B : Type κ} → Action A → (A → Action B) → Action B
◌>>=◌ m f d = after (m d) (λ e d. (err e, d)) f

abbrev pub ◌>>◌ {ℓ} : {B : Type ℓ} → Action (Unit {0}) → Action B → Action B
m >> k = m >>= λ _. k

-- A `for` loop that pushes one result for each element; the first error ends it.
unfoldable pub each {ℓ κ} : {A : Type ℓ} {B : Type κ} → (A → Action B) → List A → Action (List B)
each f [] = pure []
each f (x ∷ xs) = do y ← f x; ys ← each f xs; pure (y ∷ ys)

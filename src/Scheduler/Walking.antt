-- ===== src/Scheduler/Walking.antt =====
-- The walk over the queue: it only rotates the queue, and it stops at the first eligible worker.
use distributed_processing_e.Base.{
  ℕ, zero, suc, ◌+◌, ◌<◌, ◌≡◌, refl, true, Option, none, some, List, [], ◌∷◌, ◌++◌, arith, length,
  any, length-append, if◌then◌else◌, Bool-cases, inl, inr,
}
use mathlib.Core.List.{append-nil, append_assoc}
use distributed_processing_e.Base.Eq.{◌==◌, nat_eq}
use distributed_processing_e.Scheduler.{contains, walk, or_rotate}
use distributed_processing_e.Types.{WorkerId}

abbrev pub count : WorkerId → List WorkerId → ℕ
count a [] = 0
count a (x ∷ xs) = (if x == a then 1 else 0) + count a xs

-- Two queues hold the same workers, as often.
abbrev pub SameItems : List WorkerId → List WorkerId → Type 0
SameItems xs ys = (a : WorkerId) → count a xs ≡ count a ys

count-snoc : (a x : WorkerId) (xs : List WorkerId) → count a (xs ++ x ∷ []) ≡ count a (x ∷ xs)
count-snoc a x [] = refl
count-snoc a x (y ∷ xs) = omega (arith, count-snoc a x xs)

pub count-walk :
    (a : WorkerId) (n : ℕ) (eligible queue : List WorkerId)
    → count a (walk n eligible queue).1 ≡ count a queue
unfolding walk
count-walk a zero eligible queue = refl
count-walk a (suc n) eligible [] = count-walk a n eligible []
count-walk a (suc n) eligible (x ∷ queue) =
    ground (arith, count-walk a n eligible (queue ++ x ∷ []), count-snoc a x queue)

pub count-or_rotate :
    (a : WorkerId) (p : Option WorkerId × List WorkerId) → count a (or_rotate p).1 ≡ count a p.1
count-or_rotate a (some id, queue) = refl
count-or_rotate a (none, []) = refl
count-or_rotate a (none, x ∷ queue) = count-snoc a x queue

pub length-walk :
    (n : ℕ) (eligible queue : List WorkerId) → length (walk n eligible queue).1 ≡ length queue
unfolding walk
length-walk zero eligible queue = refl
length-walk (suc n) eligible [] = length-walk n eligible []
length-walk (suc n) eligible (x ∷ queue) =
    ground (arith, length-walk n eligible (queue ++ x ∷ []), length-append queue (x ∷ []))

-- What the walk returns is eligible.
pub walk-eligible :
    (n : ℕ) (eligible queue : List WorkerId) (id : WorkerId)
    → (walk n eligible queue).0 ≡ some id
    → contains eligible id ≡ true
unfolding walk
walk-eligible zero eligible queue id h = cc
walk-eligible (suc n) eligible [] id h = walk-eligible n eligible [] id h
walk-eligible (suc n) eligible (x ∷ queue) id h =
    ground (arith, walk-eligible n eligible (queue ++ x ∷ []) id)

-- One round for each entry is enough to meet an eligible worker, if the queue holds one.
walk_meets :
    (front back eligible : List WorkerId)
    → any (contains eligible) front ≡ true
    → (id : WorkerId) × ((walk (length front) eligible (front ++ back)).0 ≡ some id)
unfolding walk
walk_meets [] back eligible h = cc
walk_meets (x ∷ front) back eligible h = elim (Bool-cases (contains eligible x)) [
  | inl hit ↦ (x, rw hit)
  | inr miss ↦ rw (miss, append_assoc) (walk_meets front (back ++ x ∷ []) eligible (ground arith))
]

pub walk_finds :
    (eligible queue : List WorkerId)
    → any (contains eligible) queue ≡ true
    → (id : WorkerId) × ((walk (length queue) eligible queue).0 ≡ some id)
walk_finds eligible queue h = rw append-nil at (walk_meets queue [] eligible h)

-- A queue that holds a worker always yields one.
pub or_rotate-some :
    (p : Option WorkerId × List WorkerId)
    → 0 < length p.1
    → (id : WorkerId) × ((or_rotate p).0 ≡ some id)
or_rotate-some (some id, queue) h = (id, refl)
or_rotate-some (none, []) h = absurd (omega arith)
or_rotate-some (none, x ∷ queue) h = (x, refl)

pub contains-count : (a : WorkerId) (xs : List WorkerId) → contains xs a ≡ true → 0 < count a xs
contains-count a [] h = cc
contains-count a (x ∷ xs) h = ground (arith, contains-count a xs)

pub count-contains : (a : WorkerId) (xs : List WorkerId) → 0 < count a xs → contains xs a ≡ true
count-contains a [] h = absurd (omega arith)
count-contains a (x ∷ xs) h = ground (arith, count-contains a xs)

pub any-contains :
    (a : WorkerId) (eligible queue : List WorkerId)
    → contains eligible a ≡ true
    → contains queue a ≡ true
    → any (contains eligible) queue ≡ true
any-contains a eligible [] e h = cc
any-contains a eligible (x ∷ queue) e h =
    ground (arith, nat_eq.same_iff x a, any-contains a eligible queue e)

walk_held :
    (n : ℕ) (eligible queue : List WorkerId) (id : WorkerId)
    → (walk n eligible queue).0 ≡ some id
    → 0 < count id (walk n eligible queue).1
unfolding walk
walk_held zero eligible queue id h = cc
walk_held (suc n) eligible [] id h = walk_held n eligible [] id h
walk_held (suc n) eligible (x ∷ queue) id h =
    ground (
      arith,
      nat_eq.same_iff x id,
      count-snoc id x queue,
      walk_held n eligible (queue ++ x ∷ []) id,
    )

or_rotate_held :
    (p : Option WorkerId × List WorkerId) (id : WorkerId)
    → (p.0 ≡ some id → 0 < count id p.1)
    → (or_rotate p).0 ≡ some id
    → 0 < count id p.1
or_rotate_held (some x, queue) id held h = held h
or_rotate_held (none, []) id held h = cc
or_rotate_held (none, x ∷ queue) id held h = ground (arith, nat_eq.same_iff x id)

-- Whoever is chosen stood in the queue.
pub picked_held :
    (n : ℕ) (eligible queue : List WorkerId) (id : WorkerId)
    → (or_rotate (walk n eligible queue)).0 ≡ some id
    → contains queue id ≡ true
picked_held n eligible queue id h = count-contains id queue (
    omega (
      arith,
      count-walk id n eligible queue,
      or_rotate_held (walk n eligible queue) id (walk_held n eligible queue id) h,
    ))

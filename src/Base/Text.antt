-- ===== src/Base/Text.antt =====
-- The operations of `str` that the program makes, on native texts.
use Prim.Native.Char.{Char, code}
use distributed_processing_e.Base.{
  ℕ, Bool, true, false, ◌&&◌, ◌||◌, String, Option, none, some, List, [], ◌∷◌, leb, eqb,
  if◌then◌else◌,
}

-- `char::is_whitespace`: the code points with the property White_Space.
abbrev pub is_whitespace : ℕ → Bool
is_whitespace c =
    leb 9 c && leb c 13
    || eqb c 32
    || eqb c 0x85
    || eqb c 0xa0
    || eqb c 0x1680
    || leb 0x2000 c && leb c 0x200a
    || eqb c 0x2028
    || eqb c 0x2029
    || eqb c 0x202f
    || eqb c 0x205f
    || eqb c 0x3000

abbrev pub is_empty_text : String → Bool
is_empty_text String.[] = true
is_empty_text (String.◌∷◌ c s) = false

unfoldable pub trim_start : String → String
trim_start String.[] = String.[]
trim_start (String.◌∷◌ c s) = if is_whitespace (code c) then trim_start s else String.◌∷◌ c s

-- `trim_end_matches`: from the end, as long as the test holds.
unfoldable pub trim_end_matches : (ℕ → Bool) → String → String
trim_end_matches p String.[] = String.[]
trim_end_matches p (String.◌∷◌ c s) =
    let rest = trim_end_matches p s in
    if is_empty_text rest && p (code c) then String.[] else String.◌∷◌ c rest

unfoldable pub trim : String → String
unfolding trim_start trim_end_matches
trim s = trim_end_matches is_whitespace (trim_start s)

unfoldable pub strip_prefix : String → String → Option String
strip_prefix String.[] s = some s
strip_prefix (String.◌∷◌ p ps) String.[] = none
strip_prefix (String.◌∷◌ p ps) (String.◌∷◌ c s) =
    if eqb (code p) (code c) then strip_prefix ps s else none

abbrev pub before_split : Char → Option (String × String) → Option (String × String)
before_split c none = none
before_split c (some (a, b)) = some (String.◌∷◌ c a, b)

-- `split_once(sep)`: before and behind the first separator.
unfoldable pub split_once : ℕ → String → Option (String × String)
split_once sep String.[] = none
split_once sep (String.◌∷◌ c s) =
    let later = split_once sep s in
    if eqb (code c) sep then some (String.[], s) else before_split c later

-- `splitn(2, sep)`: what the two calls of `next` give.
abbrev pub first_part : String → Option (String × String) → String
first_part s none = s
first_part s (some (a, b)) = a

abbrev pub second_part : Option (String × String) → Option String
second_part none = none
second_part (some (a, b)) = some b

abbrev pub onto_head : Char → List String → List String
onto_head c [] = String.◌∷◌ c String.[] ∷ []
onto_head c (t ∷ ts) = String.◌∷◌ c t ∷ ts

-- `split(p)`: the pieces between the characters that pass the test, empty ones included.
unfoldable pub split : (ℕ → Bool) → String → List String
split p String.[] = String.[] ∷ []
split p (String.◌∷◌ c s) =
    let rest = split p s in if p (code c) then String.[] ∷ rest else onto_head c rest

abbrev pub nonempty_pieces : List String → List String
nonempty_pieces [] = []
nonempty_pieces (t ∷ ts) =
    let rest = nonempty_pieces ts in if is_empty_text t then rest else t ∷ rest

-- `split_whitespace`: the words.
unfoldable pub split_whitespace : String → List String
unfolding split
split_whitespace s = nonempty_pieces (split is_whitespace s)

-- A line that a newline ends, without the carriage return before it.
abbrev pub drop_return : String → String
drop_return String.[] = String.[]
drop_return (String.◌∷◌ c String.[]) = if eqb (code c) 13 then String.[] else String.◌∷◌ c String.[]
drop_return (String.◌∷◌ c (String.◌∷◌ d s)) = String.◌∷◌ c (drop_return (String.◌∷◌ d s))

-- The last piece is a line only where it is not empty, and keeps its carriage return.
abbrev pub ended_lines : List String → List String
ended_lines [] = []
ended_lines (t ∷ []) = if is_empty_text t then [] else t ∷ []
ended_lines (t ∷ u ∷ ts) = drop_return t ∷ ended_lines (u ∷ ts)

-- `str::lines`
unfoldable pub lines : String → List String
unfolding split
lines s = ended_lines (split (λ c. eqb c 10) s)

-- `split(sep).next()`: the text before the first separator, or all of it.
unfoldable pub before : String → String → String
unfolding strip_prefix
before sep String.[] = String.[]
before sep (String.◌∷◌ c s) =
    let rest = before sep s in
    elim (strip_prefix sep (String.◌∷◌ c s)) [ some _ ↦ String.[] | none ↦ String.◌∷◌ c rest ]

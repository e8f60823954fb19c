-- ===== src/Worker/Partition/Lines.antt =====
-- Values written one to a line are read back from the lines.
use mathlib.Core.List.{append_assoc}
use distributed_processing_e.Base.{
  ℕ, ◌≤◌, ◌≡◌, refl, sym, ap, ◌∙◌, true, false, List, [], ◌∷◌, ◌++◌, map, All, arith, eqb,
  Bool-cases, inl, inr,
}
use distributed_processing_e.Base.Outcome.{ok}
use distributed_processing_e.Worker.Partition.{Json, pieces, line_of, strip_return, parse_lines}

-- What the cache relies on: the compact text of `serde_json` is not empty and escapes every control
-- character.
pub record IsJson {V : Type 0} (json : Json V) : Type 0 where
  pub not_blank : (v : V) → json.is_blank (json.to_vec v) ≡ false
  pub printable : (v : V) → All (λ b. 32 ≤ b) (json.to_vec v)

-- The value is read back as it was written. This is not so for every value: `serde_json` may read a
-- float as a neighbour of it, and refuses values that nest too deep.
abbrev pub Exact : {V : Type 0} → Json V → V → Type 0
Exact json v = json.from_line (json.to_vec v) ≡ ok v

strip_return_printable : (bs : List ℕ) → All (λ b. 32 ≤ b) bs → strip_return bs ≡ bs
strip_return_printable [] h = refl
strip_return_printable (b ∷ []) h = elim (Bool-cases (eqb b 13)) [
  | inl ret ↦ absurd (ground arith)
  | inr other ↦ rw other
]
strip_return_printable (b ∷ c ∷ bs) h = ap (λ bs. b ∷ bs) (strip_return_printable (c ∷ bs) h.1)

pieces_printable :
    (bs rest : List ℕ) → All (λ b. 32 ≤ b) bs → pieces (bs ++ 10 ∷ rest) ≡ (true, bs) ∷ pieces rest
unfolding pieces
pieces_printable [] rest h = refl
pieces_printable (b ∷ bs) rest h = elim (Bool-cases (eqb b 10)) [
  | inl newline ↦ absurd (ground arith)
  | inr other ↦ rw (other, pieces_printable bs rest h.1)
]

module _ {V : Type 0} (json : Json V) where
  -- The file that holds the values.
  abbrev pub encode : List V → List ℕ
  encode [] = []
  encode (v ∷ vs) = json.to_vec v ++ 10 ∷ encode vs

  pub encode-append : (xs ys : List V) → encode (xs ++ ys) ≡ encode xs ++ encode ys
  encode-append [] ys = refl
  encode-append (x ∷ xs) ys =
      ap (λ bs. json.to_vec x ++ 10 ∷ bs) (encode-append xs ys)
      ∙ sym (append_assoc (json.to_vec x) (10 ∷ encode xs) (encode ys))

  module _ (laws : IsJson json) where
    pub parse_lines-encode :
        (vs : List V)
        → All (Exact json) vs
        → parse_lines json (map line_of (pieces (encode vs))) ≡ ok vs
    unfolding parse_lines pieces
    parse_lines-encode [] exact = refl
    parse_lines-encode (v ∷ vs) exact = rw (
      pieces_printable (json.to_vec v) (encode vs) (laws.printable v),
      strip_return_printable (json.to_vec v) (laws.printable v),
      laws.not_blank v,
      exact.0,
      parse_lines-encode vs exact.1,
    )

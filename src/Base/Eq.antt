-- ===== src/Base/Eq.antt =====
-- Equality tests: one operator for numbers (identifiers) and texts.
use text.Mathlib.Text
use text.Mathlib.TextEquality
use distributed_processing_e.Base.{ℕ, String, ◌≡◌, ◌↔◌, Bool, true, eqb, eqb_iff}

pub record Eq {ℓ} (K : Type ℓ) : Type ℓ where
  pub same : K → K → Bool
  pub same_iff : (k j : K) → (same k j ≡ true) ↔ (k ≡ j)

infix 50 ◌==◌
abbrev pub ◌==◌ {ℓ} : {K : Type ℓ} ⦃e : Eq K⦄ → K → K → Bool
◌==◌ ⦃e⦄ k j = e.same k j

instance abbrev pub string_eq : Eq String
string_eq = record { same = Text.◌==◌; same_iff = TextEquality.eq_iff }

instance abbrev pub nat_eq : Eq ℕ
nat_eq = record { same_iff = eqb_iff; same = eqb }

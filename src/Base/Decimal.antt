-- ===== src/Base/Decimal.antt =====
-- `Display` of the unsigned integers: decimal digits, most significant first.
use Prim.Native.Char.{Char, char, code}
use distributed_processing_e.Base.{
  ℕ, zero, suc, ◌+◌, ◌-◌, ◌*◌, ◌/◌, ◌%◌, ◌<◌, String, ◌≡◌, refl, ap, sym, ◌∙◌, arith, if◌then◌else◌,
  ltb, Bool-cases, inl, inr, true,
}

-- The digit of a number below ten.
digit : ℕ → Char
digit zero = char 48 tt
digit (suc zero) = char 49 tt
digit (suc (suc zero)) = char 50 tt
digit (suc (suc (suc zero))) = char 51 tt
digit (suc (suc (suc (suc zero)))) = char 52 tt
digit (suc (suc (suc (suc (suc zero))))) = char 53 tt
digit (suc (suc (suc (suc (suc (suc zero)))))) = char 54 tt
digit (suc (suc (suc (suc (suc (suc (suc zero))))))) = char 55 tt
digit (suc (suc (suc (suc (suc (suc (suc (suc zero)))))))) = char 56 tt
digit _ = char 57 tt

code-digit : (d : ℕ) → d < 10 → code (digit d) ≡ 48 + d
unfolding digit
code-digit zero h = omega arith
code-digit (suc zero) h = omega arith
code-digit (suc (suc zero)) h = omega arith
code-digit (suc (suc (suc zero))) h = omega arith
code-digit (suc (suc (suc (suc zero)))) h = omega arith
code-digit (suc (suc (suc (suc (suc zero))))) h = omega arith
code-digit (suc (suc (suc (suc (suc (suc zero)))))) h = omega arith
code-digit (suc (suc (suc (suc (suc (suc (suc zero))))))) h = omega arith
code-digit (suc (suc (suc (suc (suc (suc (suc (suc zero)))))))) h = omega arith
code-digit _ h = omega arith

-- The digits in front of `out`. Each round divides by ten; `fuel` above the number is enough.
digits_onto : ℕ → ℕ → String → String
digits_onto zero n out = out
digits_onto (suc fuel) n out =
    let next = String.◌∷◌ (digit (n % 10)) out in
    let rest = digits_onto fuel (n / 10) next in if ltb n 10 then next else rest

unfoldable pub show_nat : ℕ → String
unfolding digits_onto digit
show_nat n = digits_onto (suc n) n ""

-- The number that a row of digits stands for, after the digits of `acc`.
read_onto : ℕ → String → ℕ
read_onto acc String.[] = acc
read_onto acc (String.◌∷◌ c s) = read_onto (acc * 10 + (code c - 48)) s

-- Reading the digits of `n` is reading on from `n`, for some scaled accumulator.
read-digits_onto :
    (fuel n : ℕ) (out : String) → n < fuel → read_onto 0 (digits_onto fuel n out) ≡ read_onto n out
unfolding digits_onto read_onto
read-digits_onto zero n out h = elim h [ ]
read-digits_onto (suc fuel) n out h = elim (Bool-cases (ltb n 10)) [
  | inl small ↦ rw small (ap (λ k. read_onto k out) (last_digit small))
  | inr large ↦ rw large (
      read-digits_onto fuel (n / 10) _ (ground arith)
      ∙ ap (λ k. read_onto k out) (omega (arith, code-digit (n % 10) (omega arith))))
]
  where
    last_digit : ltb n 10 ≡ true → 0 * 10 + (code (digit (n % 10)) - 48) ≡ n
    last_digit small = ground (arith, code-digit (n % 10) (omega arith))

read-show_nat : (n : ℕ) → read_onto 0 (show_nat n) ≡ n
unfolding show_nat read_onto
read-show_nat n = read-digits_onto (suc n) n "" (omega arith)

-- Different numbers have different texts.
pub show_nat_inj : (m n : ℕ) → show_nat m ≡ show_nat n → m ≡ n
show_nat_inj m n h = sym (read-show_nat m) ∙ ap (read_onto 0) h ∙ read-show_nat n

show_nat_runs : show_nat 9070 ≡ "9070"
unfolding show_nat
show_nat_runs = refl

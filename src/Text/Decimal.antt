-- ===== src/Text/Decimal.antt =====
-- A number that was printed in decimal is read again.
use broker_proxy.Base.{
  ℕ, zero, suc, ◌+◌, ◌*◌, ◌/◌, ◌%◌, ◌^◌, ◌<◌, ◌≡◌, ◌≢◌, refl, ap, ◌∙◌, false, List, [], ◌∷◌, ◌==◌,
  eq_of_==, Bool-cases, inl, inr, arith,
}
use native.Mathlib.Numerals.{unary_clauses}
use broker_proxy.Text.{digits, decimal, read_digits}

-- What `atoi` makes of the digits of a number, in front of a text that does not begin with one.
read_digits-digit :
    (d n : ℕ) (rest : List ℕ)
    → d < 10
    → read_digits n ((48 + d) ∷ rest) ≡ read_digits (n * 10 + d) rest
read_digits-digit d n rest small = ground arith

tenth_lt : (f n : ℕ) → n < 10 ^ suc f → n / 10 < 10 ^ f
tenth_lt f n h = omega (arith, simp unary_clauses at h)

read_digits-digits :
    (f n : ℕ) (text : List ℕ)
    → n < 10 ^ f
    → n ≢ 0
    → read_digits 0 (digits f n text) ≡ read_digits n text
read_digits-digits zero n text small pos = absurd (pos (omega arith))
read_digits-digits (suc f) n text small pos = elim (Bool-cases (n / 10 == 0)) [
  | inl e ↦ rw e (
      read_digits-digit (n % 10) 0 text (omega arith)
      ∙ ap (λ k. read_digits k text) (last n (eq_of_== (n / 10) 0 e)))
  | inr e ↦ rw e (
      read_digits-digits f (n / 10) ((48 + n % 10) ∷ text) (tenth_lt f n small) (apart n e)
      ∙ read_digits-digit (n % 10) (n / 10) text (omega arith)
      ∙ ap (λ k. read_digits k text) (whole n))
]
  where
    last : (n : ℕ) → n / 10 ≡ 0 → 0 * 10 + n % 10 ≡ n
    last n e = omega arith

    apart : (n : ℕ) → (n / 10 == 0) ≡ false → n / 10 ≢ 0
    apart n e same = ground arith

    whole : (n : ℕ) → n / 10 * 10 + n % 10 ≡ n
    whole n = omega arith

-- The digits that are printed of a number of 64 bits are read as that number.
pub read_digits-decimal : (n : ℕ) → n < 2 ^ 64 → read_digits 0 (decimal n) ≡ n
unfolding decimal
read_digits-decimal zero small = refl
read_digits-decimal (suc n) small =
    read_digits-digits 20 (suc n) [] (omega arith) (λ e. absurd (omega arith))

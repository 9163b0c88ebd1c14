-- ===== src/Serial/Baud.antt =====
-- proxy/src/serial.cpp: the two tables of rates are inverse to each other.
use broker_proxy.Base.{
  ℕ, ◌≡◌, ◌≢◌, refl, ap, sym, ◌∙◌, Bool, true, false, List, [], ◌∷◌, ◌==◌, eq_of_==, ==_of_eq,
  if◌then◌else◌, Bool-cases, inl, inr,
}
use mathlib.Core.Path.{subst}
use broker_proxy.Serial.{baudrate_table, find_rate, find_symbol, baud_symbol, baud_to_value}

abbrev pub has_rate : ℕ → List ℕ → Bool
has_rate br [] = false
has_rate br (r ∷ rs) = if r == br then true else has_rate br rs

in_more : (q a : ℕ) (rs : List ℕ) → has_rate a rs ≡ true → has_rate a (q ∷ rs) ≡ true
in_more q a rs h = elim (Bool-cases (q == a)) [ inl e ↦ rw e refl | inr e ↦ rw e h ]

in_tail : (q r : ℕ) (rs : List ℕ) → has_rate r (q ∷ rs) ≡ true → q ≢ r → has_rate r rs ≡ true
in_tail q r rs h apart = elim (Bool-cases (q == r)) [
  | inl e ↦ absurd (apart (eq_of_== q r e))
  | inr e ↦ subst (λ t. (if t then true else has_rate r rs) ≡ true) e h
]

true_apart : (t : Bool) → t ≡ true → t ≢ false
true_apart t e f = absurd (cc)

no_both : (a b : ℕ) → (a == b) ≡ false → a ≢ b
no_both a b e same = true_apart (a == b) (==_of_eq a b same) e

listed_of :
    (br : ℕ) (rs : List ℕ)
    → has_rate 115200 rs ≡ true
    → has_rate (if has_rate br rs then br else 115200) rs ≡ true
listed_of br rs h = elim (Bool-cases (has_rate br rs)) [
  | inl e ↦ subst (λ t. has_rate (if t then br else 115200) rs ≡ true) (sym e) e
  | inr e ↦ subst (λ t. has_rate (if t then br else 115200) rs ≡ true) (sym e) h
]

module _ (symbol_of : ℕ → ℕ) where
  -- The rate that is used for a rate asked for.
  abbrev pub used_rate : ℕ → ℕ
  used_rate br = if has_rate br baudrate_table then br else 115200

  find_rate_lem :
      (br : ℕ) (rs : List ℕ)
      → find_rate symbol_of br rs ≡ symbol_of (if has_rate br rs then br else 115200)
  find_rate_lem br [] = refl
  find_rate_lem br (r ∷ rs) = elim (Bool-cases (r == br)) [
    | inl e ↦ rw (e, eq_of_== r br e) refl
    | inr e ↦ rw e (find_rate_lem br rs)
  ]

  find_symbol_lem :
      (rs : List ℕ) (r : ℕ)
      → has_rate r rs ≡ true
      → ((a : ℕ) → has_rate a rs ≡ true → symbol_of a ≡ symbol_of r → a ≡ r)
      → find_symbol symbol_of (symbol_of r) rs ≡ r
  find_symbol_lem [] r h apart = absurd (cc)
  find_symbol_lem (q ∷ rs) r h apart = elim (Bool-cases (symbol_of q == symbol_of r)) [
    | inl e ↦ rw e (apart q (rw (==_of_eq q q refl) refl) (eq_of_== (symbol_of q) (symbol_of r) e))
    | inr e ↦ rw e (
        find_symbol_lem rs r
          (in_tail q r rs h (λ same. no_both (symbol_of q) (symbol_of r) e (ap symbol_of same)))
          (λ a in_rs. apart a (in_more q a rs in_rs)))
  ]

  -- Where the operating system has different constants for the listed rates, the rate that a port
  -- has after `baudrate(br)` is `br` if it is listed, and 115200 if not.
  pub baud_to_value-baud_symbol :
      ((a b : ℕ)
        → has_rate a baudrate_table ≡ true
        → has_rate b baudrate_table ≡ true
        → symbol_of a ≡ symbol_of b
        → a ≡ b)
      → (br : ℕ) → baud_to_value symbol_of (baud_symbol symbol_of br) ≡ used_rate br
  unfolding baud_to_value baud_symbol
  baud_to_value-baud_symbol apart br =
      ap (λ s. find_symbol symbol_of s baudrate_table) (find_rate_lem br baudrate_table)
      ∙ find_symbol_lem baudrate_table (used_rate br) listed
          (λ a h. apart a (used_rate br) h listed)
    where
      listed : has_rate (used_rate br) baudrate_table ≡ true
      listed = listed_of br baudrate_table refl

-- ===== src/Split/Fields.antt =====
-- `split` yields the fields of the string.
use mathlib.Core.Path.{subst}
use broker_proxy.Base.{
  ℕ, zero, suc, ◌+◌, ◌-◌, ◌≤◌, ◌<◌, ◌≡◌, refl, ap, sym, ◌∙◌, false, Option, none, some, List, [],
  ◌∷◌, ◌++◌, ◌==◌, if◌then◌else◌, length, append_assoc, Bool-cases, inl, inr, arith,
}
use broker_proxy.Split.{take, drop, find_in, find, substr, split_next, split_loop, split}

-- A character in front of the first field.
abbrev pub on_head : ℕ → List (List ℕ) → List (List ℕ)
on_head x [] = (x ∷ []) ∷ []
on_head x (w ∷ ws) = (x ∷ w) ∷ ws

-- The fields of a string: the first one ends at the first separator.
abbrev pub fields : ℕ → List ℕ → List (List ℕ)
fields sep [] = [] ∷ []
fields sep (x ∷ xs) = if x == sep then [] ∷ fields sep xs else on_head x (fields sep xs)

-- What `find` says of the fields.
abbrev Splits : ℕ → List ℕ → ℕ → Option ℕ → Type 0
Splits sep r i none = fields sep r ≡ r ∷ []
Splits sep r i (some p) =
    (k : ℕ) × (p ≡ i + k) × (k < length r) × (fields sep r ≡ take k r ∷ fields sep (drop (suc k) r))

Splits-of_next :
    (sep x : ℕ) (r : List ℕ) (i : ℕ) (o : Option ℕ)
    → (x == sep) ≡ false
    → Splits sep r (suc i) o
    → Splits sep (x ∷ r) i o
Splits-of_next sep x r i none e s = rw (e, s) refl
Splits-of_next sep x r i (some p) e (k, at, lt, s) =
    (suc k, omega (arith, at), omega (arith, lt), rw (e, s) refl)

find_in-Splits : (sep : ℕ) (r : List ℕ) (i : ℕ) → Splits sep r i (find_in sep r i)
find_in-Splits sep [] i = refl
find_in-Splits sep (x ∷ r) i = elim (Bool-cases (x == sep)) [
  | inl e ↦
      let seen : some i ≡ find_in sep (x ∷ r) i = rw e refl in
      subst (Splits sep (x ∷ r) i) seen (0, omega arith, omega arith, rw e refl)
  | inr e ↦
      let seen : find_in sep r (suc i) ≡ find_in sep (x ∷ r) i = rw e refl in
      subst (Splits sep (x ∷ r) i) seen
        (Splits-of_next sep x r i (find_in sep r (suc i)) e (find_in-Splits sep r (suc i)))
]

take_all : (n : ℕ) (r : List ℕ) → length r ≤ n → take n r ≡ r
take_all zero [] le = refl
take_all zero (x ∷ r) le = absurd (omega arith)
take_all (suc n) [] le = refl
take_all (suc n) (x ∷ r) le = ap (◌∷◌ x) (take_all n r (omega arith))

length-drop : (n : ℕ) (r : List ℕ) → length (drop n r) ≡ length r - n
length-drop zero r = omega arith
length-drop (suc n) [] = omega arith
length-drop (suc n) (x ∷ r) = omega (arith, length-drop n r)

drop-nil : (n : ℕ) → drop {A = ℕ} n [] ≡ []
drop-nil zero = refl
drop-nil (suc n) = refl

drop-drop : (n m : ℕ) (r : List ℕ) → drop m (drop n r) ≡ drop (n + m) r
drop-drop zero m r = ap (λ n. drop n r) (omega arith)
drop-drop (suc n) m [] = drop-nil m ∙ sym (drop-nil (suc n + m))
drop-drop (suc n) m (x ∷ r) =
    let more : suc n + m ≡ suc (n + m) = omega arith in
    drop-drop n m r ∙ sym (ap (λ j. drop j (x ∷ r)) more)

split_loop_lem :
    (fuel sep : ℕ) (s : List ℕ) (pos : ℕ) (output : List (List ℕ))
    → length s < pos + fuel
    → pos ≤ length s
    → split_loop fuel sep s pos output ≡ output ++ fields sep (drop pos s)
split_loop_lem zero sep s pos output lt le = absurd (omega arith)
split_loop_lem (suc fuel) sep s pos output lt le =
    next (λ p o. split_loop_lem fuel sep s p o) (find sep s pos)
      (find_in-Splits sep (drop pos s) pos)
  where
    next :
        ((p : ℕ) (o : List (List ℕ))
          → length s < p + fuel
          → p ≤ length s
          → split_loop fuel sep s p o ≡ o ++ fields sep (drop p s))
        → (o : Option ℕ) → Splits sep (drop pos s) pos o
        → split_next s pos output (split_loop fuel sep s) o ≡ output ++ fields sep (drop pos s)
    next ih none e = rw e (
        ap (λ w. output ++ w ∷ [])
          (take_all (length s) (drop pos s) (omega (arith, length-drop pos s))))
    next ih (some p) (k, at, k_lt, e) =
        let there : drop (p + 1) s ≡ drop (suc k) (drop pos s) =
          ap (λ j. drop j s) (omega (arith, at)) ∙ sym (drop-drop pos (suc k) s) in
        let same : p - pos ≡ k = omega (arith, at) in
        ih (p + 1) (output ++ substr s pos (p - pos) ∷ []) (omega (arith, at))
          (omega (arith, at, k_lt, length-drop pos s))
        ∙ rw (there, same, e)
            (append_assoc output (take k (drop pos s) ∷ [])
              (fields sep (drop (suc k) (drop pos s))))

-- `split` yields the fields of the string, in order, for any string and any separator.
pub split-eq-fields : (s : List ℕ) (sep : ℕ) → split s sep ≡ fields sep s
unfolding split
split-eq-fields s sep = split_loop_lem (suc (length s)) sep s 0 [] (omega arith) (omega arith)

-- ===== src/Split/Join.antt =====
-- `split` against `join`.
use broker_proxy.Base.{
  ℕ, suc, ◌≡◌, ◌≢◌, refl, ap, ap₂, sym, ◌∙◌, List, [], ◌∷◌, ◌++◌, ◌==◌, eq_of_==, ==_of_eq,
  ==_of_ne, if◌then◌else◌, length, All, Bool-cases, inl, inr, arith,
}
use broker_proxy.Split.{split}
use broker_proxy.Split.Fields.{on_head, fields, split-eq-fields}

-- The words with the separator between them.
abbrev pub join : ℕ → List (List ℕ) → List ℕ
join sep [] = []
join sep (w ∷ []) = w
join sep (w ∷ v ∷ ws) = w ++ sep ∷ join sep (v ∷ ws)

-- A word in which the separator does not occur.
abbrev pub IsWord : ℕ → List ℕ → Type 0
IsWord sep w = All (λ (x : ℕ). x ≢ sep) w

abbrev pub occurrences : ℕ → List ℕ → ℕ
occurrences sep [] = 0
occurrences sep (x ∷ xs) = if x == sep then suc (occurrences sep xs) else occurrences sep xs

join-on_head : (sep x : ℕ) (ws : List (List ℕ)) → join sep (on_head x ws) ≡ x ∷ join sep ws
join-on_head sep x [] = refl
join-on_head sep x (w ∷ []) = refl
join-on_head sep x (w ∷ v ∷ ws) = refl

-- What `fields` yields is never empty.
fields-cons : (sep : ℕ) (s : List ℕ) → (w : List ℕ) × (ws : List (List ℕ)) × (fields sep s ≡ w ∷ ws)
fields-cons sep [] = ([], [], refl)
fields-cons sep (x ∷ s) = elim (Bool-cases (x == sep)) [
  | inl e ↦ ([], fields sep s, rw e refl)
  | inr e ↦ let (w, ws, same) = fields-cons sep s in (x ∷ w, ws, rw (e, same) refl)
]

join-fields : (sep : ℕ) (s : List ℕ) → join sep (fields sep s) ≡ s
join-fields sep [] = refl
join-fields sep (x ∷ s) = elim (Bool-cases (x == sep)) [
  | inl e ↦
      let (w, ws, same) = fields-cons sep s in
      rw (e, same)
        (ap₂ (◌∷◌) (sym (eq_of_== x sep e)) (ap (join sep) (sym same) ∙ join-fields sep s))
  | inr e ↦ rw e (join-on_head sep x (fields sep s) ∙ ap (◌∷◌ x) (join-fields sep s))
]

All-IsWord-on_head :
    (sep x : ℕ) (ws : List (List ℕ))
    → x ≢ sep
    → All (IsWord sep) ws
    → All (IsWord sep) (on_head x ws)
All-IsWord-on_head sep x [] ne a = ((ne, tt), tt)
All-IsWord-on_head sep x (w ∷ ws) ne a = ((ne, a.0), a.1)

All-IsWord-fields : (sep : ℕ) (s : List ℕ) → All (IsWord sep) (fields sep s)
All-IsWord-fields sep [] = (tt, tt)
All-IsWord-fields sep (x ∷ s) = elim (Bool-cases (x == sep)) [
  | inl e ↦ rw e (tt, All-IsWord-fields sep s)
  | inr e ↦ rw e (All-IsWord-on_head sep x (fields sep s) (ground arith) (All-IsWord-fields sep s))
]

length-fields : (sep : ℕ) (s : List ℕ) → length (fields sep s) ≡ suc (occurrences sep s)
length-fields sep [] = refl
length-fields sep (x ∷ s) = elim (Bool-cases (x == sep)) [
  | inl e ↦ rw e (ap suc (length-fields sep s))
  | inr e ↦
      let (w, ws, same) = fields-cons sep s in
      rw (e, same) (ap length (sym same) ∙ length-fields sep s)
]

-- The fields of a word, a separator and a string.
fields-word : (sep : ℕ) (w s : List ℕ) → IsWord sep w → fields sep (w ++ sep ∷ s) ≡ w ∷ fields sep s
fields-word sep [] s free = rw (==_of_eq sep sep refl) refl
fields-word sep (x ∷ w) s free = rw (==_of_ne x sep free.0, fields-word sep w s free.1) refl

fields-last : (sep : ℕ) (w : List ℕ) → IsWord sep w → fields sep w ≡ w ∷ []
fields-last sep [] free = refl
fields-last sep (x ∷ w) free = rw (==_of_ne x sep free.0, fields-last sep w free.1) refl

fields-join :
    (sep : ℕ) (w : List ℕ) (ws : List (List ℕ))
    → All (IsWord sep) (w ∷ ws)
    → fields sep (join sep (w ∷ ws)) ≡ w ∷ ws
fields-join sep w [] free = fields-last sep w free.0
fields-join sep w (v ∷ ws) free =
    fields-word sep w (join sep (v ∷ ws)) free.0 ∙ ap (◌∷◌ w) (fields-join sep v ws free.1)

-- The words that `split` yields give the string back with the separator between them; the separator
-- occurs in none of them; and there is one more of them than there are separators.
pub join-split :
    (s : List ℕ) (sep : ℕ)
    → (join sep (split s sep) ≡ s)
      × All (IsWord sep) (split s sep)
      × (length (split s sep) ≡ suc (occurrences sep s))
join-split s sep =
    rw (split-eq-fields s sep) (join-fields sep s, All-IsWord-fields sep s, length-fields sep s)

-- Words without the separator, one at least, are what `split` yields of them joined.
pub split-join :
    (sep : ℕ) (w : List ℕ) (ws : List (List ℕ))
    → All (IsWord sep) (w ∷ ws)
    → split (join sep (w ∷ ws)) sep ≡ w ∷ ws
split-join sep w ws free = split-eq-fields (join sep (w ∷ ws)) sep ∙ fields-join sep w ws free

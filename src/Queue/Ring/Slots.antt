-- ===== src/Queue/Ring/Slots.antt =====
-- The items that stand in consecutive slots of a ring.
use native.Mathlib.Nat.{mod-eq_of_lt, mod_self}
use broker_proxy.Base.{
  ℕ, zero, suc, ◌+◌, ◌%◌, ◌<◌, ◌≡◌, ◌≢◌, ◌⊎◌, inl, inr, refl, ap, sym, ◌∙◌, Option, none, some,
  List, [], ◌∷◌, ◌++◌, ◌==◌, eq_of_==, length, get_elem?, set, Bool-cases, arith,
}

-- A step round the ring.
pub next_cases :
    (i n : ℕ) → i < n → ((i + 1 < n) × ((i + 1) % n ≡ i + 1)) ⊎ ((i + 1 ≡ n) × ((i + 1) % n ≡ 0))
next_cases i n h = elim (Bool-cases (i + 1 == n)) [
  | inl e ↦ inr (eq_of_== _ _ e, rw (eq_of_== _ _ e) (mod_self n))
  | inr ne ↦ inl (ground arith, mod-eq_of_lt (ground arith))
]

-- The index behind that of the last of `k` items, which start behind `i`.
abbrev pub IsNext : ℕ → ℕ → ℕ → ℕ → Type 0
IsNext n i k j = (j < n) × ((j ≡ i + suc k) ⊎ (j + n ≡ i + suc k))

module _ {A : Type 0} where
  abbrev pub add_slot : Option A → List A → List A
  add_slot none xs = xs
  add_slot (some x) xs = x ∷ xs

  module _ (n : ℕ) where
    -- The `k` items behind index `i`, going round at `n`.
    abbrev pub slots : List A → ℕ → ℕ → List A
    slots array i zero = []
    slots array i (suc k) = add_slot (get_elem? array ((i + 1) % n)) (slots array ((i + 1) % n) k)

  pub get_elem?-lt : (xs : List A) (i : ℕ) → i < length xs → (x : A) × (get_elem? xs i ≡ some x)
  get_elem?-lt [] i h = absurd (omega arith)
  get_elem?-lt (x ∷ xs) zero h = (x, refl)
  get_elem?-lt (x ∷ xs) (suc i) h = get_elem?-lt xs i (omega arith)

  pub length-slots :
      (n : ℕ) (array : List A) (i k : ℕ) → length array ≡ n → 0 < n → length (slots n array i k) ≡ k
  length-slots n array i zero e h = refl
  length-slots n array i (suc k) e h =
      let (x, found) = get_elem?-lt array ((i + 1) % n) (omega arith) in
      rw found (ap suc (length-slots n array ((i + 1) % n) k e h))

  get_elem?-set_self :
      (xs : List A) (i : ℕ) (x : A) → i < length xs → get_elem? (set xs i x) i ≡ some x
  get_elem?-set_self [] i x h = absurd (omega arith)
  get_elem?-set_self (y ∷ xs) zero x h = refl
  get_elem?-set_self (y ∷ xs) (suc i) x h = get_elem?-set_self xs i x (omega arith)

  get_elem?-set_ne :
      (xs : List A) (i j : ℕ) (x : A) → i ≢ j → get_elem? (set xs i x) j ≡ get_elem? xs j
  get_elem?-set_ne [] i j x h = refl
  get_elem?-set_ne (y ∷ xs) zero zero x h = absurd (h refl)
  get_elem?-set_ne (y ∷ xs) zero (suc j) x h = refl
  get_elem?-set_ne (y ∷ xs) (suc i) zero x h = refl
  get_elem?-set_ne (y ∷ xs) (suc i) (suc j) x h = get_elem?-set_ne xs i j x (λ e. h (ap suc e))

  add_slot-append : (o : Option A) (xs ys : List A) → add_slot o xs ++ ys ≡ add_slot o (xs ++ ys)
  add_slot-append none xs ys = refl
  add_slot-append (some x) xs ys = refl

  -- Storing behind `k` items, with a slot left, appends to them.
  pub slots-set :
      (n : ℕ) (array : List A) (x : A) (k i j : ℕ)
      → length array ≡ n
      → i < n
      → suc k < n
      → IsNext n i k j
      → slots n (set array j x) i (suc k) ≡ slots n array i k ++ x ∷ []
  slots-set n array x zero i j e hi hk at =
      let here : (i + 1) % n ≡ j = ground (arith, next_cases i n hi) in
      rw (here, get_elem?-set_self array j x (omega arith))
  slots-set n array x (suc k) i j e hi hk at =
      ap (λ o. add_slot o (slots n (set array j x) ((i + 1) % n) (suc k)))
        (get_elem?-set_ne array j ((i + 1) % n) x apart)
      ∙ ap (add_slot (get_elem? array ((i + 1) % n)))
          (slots-set n array x k ((i + 1) % n) j e (omega arith) (omega arith) onwards)
      ∙ sym
          (add_slot-append (get_elem? array ((i + 1) % n)) (slots n array ((i + 1) % n) k) (x ∷ []))
    where
      apart : j ≢ (i + 1) % n
      apart = ground (arith, next_cases i n hi)

      onwards : IsNext n ((i + 1) % n) k j
      onwards = ground (arith, next_cases i n hi)

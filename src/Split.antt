-- ===== src/Split.antt =====
-- common/src/util.cpp: `split`. A string is the list of its characters. `find` and `substr` are
-- those of std::string, for a position within the string.
pub mod Fields
pub mod Join
mod Tests
use broker_proxy.Base.{
  ℕ, zero, suc, ◌+◌, ◌-◌, ◌≡◌, Bool, true, false, Option, none, some, List, [], ◌∷◌, ◌++◌, ◌==◌,
  if◌then◌else◌, length,
}

module _ {ℓ} {A : Type ℓ} where
  abbrev pub take : ℕ → List A → List A
  take zero xs = []
  take (suc n) [] = []
  take (suc n) (x ∷ xs) = x ∷ take n xs

  abbrev pub drop : ℕ → List A → List A
  drop zero xs = xs
  drop (suc n) [] = []
  drop (suc n) (x ∷ xs) = drop n xs

-- `find`: the first position of the character, counted from `i`.
abbrev pub find_in : ℕ → List ℕ → ℕ → Option ℕ
find_in c [] i = none
find_in c (x ∷ xs) i = if x == c then some i else find_in c xs (suc i)

abbrev pub find : ℕ → List ℕ → ℕ → Option ℕ
find c s pos = find_in c (drop pos s) pos

abbrev pub substr : List ℕ → ℕ → ℕ → List ℕ
substr s pos n = take n (drop pos s)

-- After a look for the separator from `pos`: the last word, or a word and the rest of the loop.
-- `pos` is then `npos`, so the last word is what is left of the string.
abbrev pub split_next :
    List ℕ → ℕ → List (List ℕ) → (ℕ → List (List ℕ) → List (List ℕ)) → Option ℕ → List (List ℕ)
split_next s pos output rest none = output ++ substr s pos (length s) ∷ []
split_next s pos output rest (some p) = rest (p + 1) (output ++ substr s pos (p - pos) ∷ [])

-- The loop, at the head of which `prev_pos` and `pos` are equal, on fuel.
abbrev pub split_loop : ℕ → ℕ → List ℕ → ℕ → List (List ℕ) → List (List ℕ)
split_loop zero sep s pos output = output
split_loop (suc fuel) sep s pos output =
    split_next s pos output (split_loop fuel sep s) (find sep s pos)

-- Each round ends behind a separator, so one more round than the string has characters is enough.
unfoldable pub split : List ℕ → ℕ → List (List ℕ)
split s sep = split_loop (suc (length s)) sep s 0 []

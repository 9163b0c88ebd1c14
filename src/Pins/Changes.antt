-- ===== src/Pins/Changes.antt =====
-- arduino_client/src/Button.cpp: what a button hands on.
use broker_proxy.Base.{
  ℕ, ◌≡◌, refl, Bool, true, false, not, List, [], ◌∷◌, ◌==◌, Bool-cases, inl, inr,
}
use broker_proxy.Pins.{isr_buttons}

-- Each value is the other one than the value before it.
abbrev pub IsAlternating : Bool → List Bool → Type 0
IsAlternating b [] = Unit
IsAlternating b (c ∷ cs) = (c ≡ not b) × IsAlternating c cs

abbrev pub last_of : Bool → List Bool → Bool
last_of b [] = b
last_of b (c ∷ cs) = last_of c cs

abbrev pub last_level : Bool → List ℕ → Bool
last_level b [] = b
last_level b (level ∷ levels) = last_level (level == 0) levels

-- A button hands on its changes: from a state on, whatever levels the interrupts find, the values that
-- it hands on alternate, the first being the opposite of the state, and the last of them is the
-- state that the last interrupt has found, which the button remembers.
pub isr_buttons-IsAlternating :
    (levels : List ℕ) (b : Bool)
    → IsAlternating b (isr_buttons levels b).1
      × (last_of b (isr_buttons levels b).1 ≡ last_level b levels)
      × ((isr_buttons levels b).0 ≡ last_level b levels)
isr_buttons-IsAlternating [] b = (tt, refl, refl)
isr_buttons-IsAlternating (level ∷ levels) true = elim (Bool-cases (level == 0)) [
  | inl e ↦ rw e (isr_buttons-IsAlternating levels true)
  | inr e ↦
      (let rest = isr_buttons-IsAlternating levels false in rw e ((refl, rest.0), rest.1, rest.2))
]
isr_buttons-IsAlternating (level ∷ levels) false = elim (Bool-cases (level == 0)) [
  | inl e ↦
      (let rest = isr_buttons-IsAlternating levels true in rw e ((refl, rest.0), rest.1, rest.2))
  | inr e ↦ rw e (isr_buttons-IsAlternating levels false)
]

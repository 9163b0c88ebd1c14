-- ===== src/Redis/Texts.antt =====
-- `==` of std::string is equality.
use broker_proxy.Base.{
  ℕ, ◌≡◌, refl, sym, ap, ap₂, ◌∙◌, true, false, List, [], ◌∷◌, ◌==◌, if◌then◌else◌, eq_of_==,
  ==_of_eq, Bool-cases, inl, inr,
}
use broker_proxy.Redis.{same_text}

pub same_text_self : (s : List ℕ) → same_text s s ≡ true
same_text_self [] = refl
same_text_self (c ∷ cs) = rw (==_of_eq c c refl, same_text_self cs) refl

pub same_text_eq : (s t : List ℕ) → same_text s t ≡ true → s ≡ t
same_text_eq [] [] e = refl
same_text_eq [] (c ∷ cs) e = absurd (cc)
same_text_eq (c ∷ cs) [] e = absurd (cc)
same_text_eq (c ∷ cs) (b ∷ bs) e = elim (Bool-cases (c == b)) [
  | inl same ↦
      ap₂ (◌∷◌) (eq_of_== c b same)
        (same_text_eq cs bs (sym (ap (λ x. if x then same_text cs bs else false) same) ∙ e))
  | inr other ↦
      (let no = sym (ap (λ x. if x then same_text cs bs else false) other) ∙ e in absurd (cc))
]

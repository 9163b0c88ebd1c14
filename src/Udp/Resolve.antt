-- ===== src/Udp/Resolve.antt =====
-- proxy/src/Udp.cpp: when `getInetAddr` reports an address.
use mathlib.Core.Path.{subst}
use broker_proxy.Base.{
  ℕ, ◌≡◌, ◌≢◌, ◌↔◌, ◌⊎◌, inl, inr, refl, ap, Bool, true, false, not, Option, none, some, List, ◌==◌,
  Bool-cases, ==_of_eq, ==_of_ne,
}
use broker_proxy.Address.{isdigit}
use broker_proxy.Udp.{no_addr, first_char, last_inet, resolved, get_inet_addr}

-- An address is reported where there is one.
reported : (a : ℕ) → (not (a == no_addr) ≡ true) ↔ (a ≢ no_addr)
reported a = (
  (λ e. λ same. (let f = ap not (==_of_eq a no_addr same) in cc)),
  (λ ne. rw (==_of_ne a no_addr ne) refl),
)

-- A report is right, or one of a name that could not be resolved.
abbrev Reports : Type 0 → ℕ × Bool → Type 0
Reports unresolved r = (r.1 ≡ true) ↔ (unresolved ⊎ (r.0 ≢ no_addr))

Reports-resolved :
    (digit : Bool) (o : Option (List (Option ℕ)))
    → digit ≡ false
    → Reports ((digit ≡ false) × (o ≡ none)) (resolved o)
Reports-resolved digit none e = ((λ t. inl (e, refl)), (λ t. refl))
Reports-resolved digit (some infos) e = (
  (λ t. inr ((reported (last_inet no_addr infos)).0 t)),
  (λ t. elim t [
    | inl n ↦ absurd (let wrong = n.1 in cc)
    | inr ne ↦ (reported (last_inet no_addr infos)).1 ne
  ]),
)

-- `getInetAddr` returns true where it leaves an address, and also for a host name that cannot be
-- resolved, and in no other case.
pub get_inet_addr-true_iff :
    (inet_addr : List ℕ → ℕ) (getaddrinfo : List ℕ → Option (List (Option ℕ))) (hostname : List ℕ)
    → let r = get_inet_addr inet_addr getaddrinfo hostname in
      (r.1 ≡ true) ↔ (
        ((isdigit (first_char hostname) ≡ false) × (getaddrinfo hostname ≡ none)) ⊎ (r.0 ≢ no_addr))
unfolding get_inet_addr
get_inet_addr-true_iff inet_addr getaddrinfo hostname =
    elim (Bool-cases (isdigit (first_char hostname))) [
      | inl e ↦ rw e (
        (λ t. inr ((reported (inet_addr hostname)).0 t)),
        (λ t. elim t [
          | inl n ↦ absurd (let wrong = n.0 in cc)
          | inr ne ↦ (reported (inet_addr hostname)).1 ne
        ]),
      )
      | inr e ↦
          subst (Reports ((isdigit (first_char hostname) ≡ false) × (getaddrinfo hostname ≡ none)))
            (rw e refl) (Reports-resolved (isdigit (first_char hostname)) (getaddrinfo hostname) e)
    ]

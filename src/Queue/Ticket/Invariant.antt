-- ===== src/Queue/Ticket/Invariant.antt =====
-- What holds of the queue and its threads between any two steps.
use broker_proxy.Base.{ℕ, suc, ◌%◌, ◌≤◌, ◌<◌, ◌≡◌, Option, none, some, List, [], ◌∷◌, All}
use broker_proxy.Queue.Ticket.{
  Pc, idle, push_loaded, push_ready, push_claimed, push_written, pop_loaded, pop_ready, pop_claimed,
  pop_copied, Shared, World,
}

module _ {A : Type 0} where
  -- The ticket that a thread has taken and not yet given back by its store to `version`.
  abbrev pub push_ticket : Pc A → Option ℕ
  push_ticket (push_claimed v t) = some t
  push_ticket (push_written v t) = some t
  push_ticket _ = none

  abbrev pub pop_ticket : Pc A → Option ℕ
  pop_ticket (pop_claimed h) = some h
  pop_ticket (pop_copied h x) = some h
  pop_ticket _ = none

  -- Two threads hold no ticket in common.
  abbrev pub NoClash : Pc A → Pc A → Type 0
  NoClash p q =
      ((t : ℕ) → push_ticket p ≡ some t → push_ticket q ≡ some t → ⊥)
      × ((h : ℕ) → pop_ticket p ≡ some h → pop_ticket q ≡ some h → ⊥)

  -- No ticket stands twice in a list of completed pops.
  abbrev pub IsApart : ℕ → List (ℕ × Option A) → Type 0
  IsApart h ps = All (λ (p : ℕ × Option A). p.0 ≡ h → ⊥) ps

  abbrev pub AreDistinct : List (ℕ × Option A) → Type 0
  AreDistinct [] = Unit
  AreDistinct ((h, x) ∷ ps) = IsApart h ps × AreDistinct ps

  module _ (cap : ℕ) where
    -- What a thread may rely on at each point.
    abbrev pub Holds : Shared A → Pc A → Type 0
    Holds s idle = Unit
    Holds s (push_loaded v t) = Unit
    Holds s (push_ready v t) = (t ≤ s.version (t % cap)) × Unit {0}
    Holds s (push_claimed v t) = (t < s.tail) × (s.version (t % cap) ≡ t) × (s.log t ≡ some v)
    Holds s (push_written v t) =
        (t < s.tail) × (s.version (t % cap) ≡ t) × (s.log t ≡ some v) × (s.value (t % cap) ≡ some v)
    Holds s (pop_loaded h) = Unit
    Holds s (pop_ready h) = (suc h ≤ s.version (h % cap)) × Unit {0}
    Holds s (pop_claimed h) = (h < s.head) × (s.version (h % cap) ≡ suc h)
    Holds s (pop_copied h x) = (h < s.head) × (s.version (h % cap) ≡ suc h) × (x ≡ s.log h)

    -- A completed pop: its ticket is spent, and its value is that of the push with the same ticket.
    abbrev pub IsTaken : Shared A → ℕ × Option A → Type 0
    IsTaken s (h, x) = (h < s.head) × (x ≡ s.log h) × (suc (suc h) ≤ s.version (h % cap))

    -- The versions, read by those who would push with a ticket to come and those who would pop.
    pub record IsOrdered (s : Shared A) : Type 0 where
      pub order : s.head ≤ s.tail
      pub to_push : (t : ℕ) → s.tail ≤ t → s.version (t % cap) ≤ t
      pub to_pop : (t : ℕ) → s.head ≤ t → s.version (t % cap) ≤ suc t
      pub stored : (t : ℕ) → s.version (t % cap) ≡ suc t → s.value (t % cap) ≡ s.log t
      pub logged : (t : ℕ) → t < s.tail → s.log t ≡ none → ⊥

    pub record IsValid (w : World A) : Type 0 where
      pub ordered : IsOrdered w.shared
      pub threads : (i : ℕ) → Holds w.shared (w.pc i)
      pub one_push :
          (i j t : ℕ) → push_ticket (w.pc i) ≡ some t → push_ticket (w.pc j) ≡ some t → i ≡ j
      pub one_pop :
          (i j h : ℕ) → pop_ticket (w.pc i) ≡ some h → pop_ticket (w.pc j) ≡ some h → i ≡ j
      pub spent : All (IsTaken w.shared) w.shared.taken
      pub distinct : AreDistinct w.shared.taken

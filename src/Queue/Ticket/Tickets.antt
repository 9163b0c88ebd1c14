-- ===== src/Queue/Ticket/Tickets.antt =====
-- The tickets that a step takes or spends.
use mathlib.Core.Path.{subst}
use broker_proxy.Base.{
  ℕ, suc, ◌%◌, ◌≤◌, ◌<◌, ◌≡◌, ◌⊎◌, inl, inr, refl, ap, sym, Option, some, List, [], ◌∷◌, All, arith,
}
use broker_proxy.Queue.Ticket.{
  Pc, idle, push_loaded, push_ready, push_claimed, push_written, pop_loaded, pop_ready, pop_claimed,
  pop_copied, Shared, step,
}
use broker_proxy.Queue.Ticket.Invariant.{
  push_ticket, pop_ticket, Holds, IsTaken, IsApart, AreDistinct, IsOrdered,
}
use broker_proxy.Queue.Ticket.Frame.{step-IsTaken}

module _ {A : Type 0} (cap : ℕ) (two : 2 ≤ cap) where
  -- A thread's ticket after a step is the one before, or the one that it has just taken.
  pub push_ticket-step :
      (p : Pc A) (s : Shared A) (t : ℕ)
      → push_ticket (step cap p s).1 ≡ some t
      → (push_ticket p ≡ some t) ⊎ (t ≡ s.tail)
  unfolding step
  push_ticket-step idle s t e = absurd (cc)
  push_ticket-step (push_loaded v u) s t e = absurd (ground arith)
  push_ticket-step (push_ready v u) s t e = inr (ground arith)
  push_ticket-step (push_claimed v u) s t e = inl e
  push_ticket-step (push_written v u) s t e = absurd (cc)
  push_ticket-step (pop_loaded u) s t e = absurd (ground arith)
  push_ticket-step (pop_ready u) s t e = absurd (ground arith)
  push_ticket-step (pop_claimed u) s t e = absurd (cc)
  push_ticket-step (pop_copied u x) s t e = absurd (cc)

  pub pop_ticket-step :
      (p : Pc A) (s : Shared A) (t : ℕ)
      → pop_ticket (step cap p s).1 ≡ some t
      → (pop_ticket p ≡ some t) ⊎ (t ≡ s.head)
  unfolding step
  pop_ticket-step idle s t e = absurd (cc)
  pop_ticket-step (push_loaded v u) s t e = absurd (ground arith)
  pop_ticket-step (push_ready v u) s t e = absurd (ground arith)
  pop_ticket-step (push_claimed v u) s t e = absurd (cc)
  pop_ticket-step (push_written v u) s t e = absurd (cc)
  pop_ticket-step (pop_loaded u) s t e = absurd (ground arith)
  pop_ticket-step (pop_ready u) s t e = inr (ground arith)
  pop_ticket-step (pop_claimed u) s t e = inl e
  pop_ticket-step (pop_copied u x) s t e = absurd (cc)

  -- A ticket that a thread holds has been given out.
  pub push_ticket-lt :
      (p : Pc A) (s : Shared A) (t : ℕ) → Holds cap s p → push_ticket p ≡ some t → t < s.tail
  push_ticket-lt (push_claimed v u) s t h e = ground arith
  push_ticket-lt (push_written v u) s t h e = ground arith
  push_ticket-lt idle s t h e = absurd (cc)
  push_ticket-lt (push_loaded v u) s t h e = absurd (cc)
  push_ticket-lt (push_ready v u) s t h e = absurd (cc)
  push_ticket-lt (pop_loaded u) s t h e = absurd (cc)
  push_ticket-lt (pop_ready u) s t h e = absurd (cc)
  push_ticket-lt (pop_claimed u) s t h e = absurd (cc)
  push_ticket-lt (pop_copied u x) s t h e = absurd (cc)

  pub pop_ticket-lt :
      (p : Pc A) (s : Shared A) (t : ℕ) → Holds cap s p → pop_ticket p ≡ some t → t < s.head
  pop_ticket-lt (pop_claimed u) s t h e = ground arith
  pop_ticket-lt (pop_copied u x) s t h e = ground arith
  pop_ticket-lt idle s t h e = absurd (cc)
  pop_ticket-lt (push_loaded v u) s t h e = absurd (cc)
  pop_ticket-lt (push_ready v u) s t h e = absurd (cc)
  pop_ticket-lt (push_claimed v u) s t h e = absurd (cc)
  pop_ticket-lt (push_written v u) s t h e = absurd (cc)
  pop_ticket-lt (pop_loaded u) s t h e = absurd (cc)
  pop_ticket-lt (pop_ready u) s t h e = absurd (cc)

  -- The spent tickets after a step: a completed pop adds one that was not spent before.
  All-IsTaken :
      (p : Pc A) (s : Shared A) (ps : List (ℕ × Option A))
      → IsOrdered cap s
      → Holds cap s p
      → All (IsTaken cap s) ps
      → All (IsTaken cap (step cap p s).0) ps
  All-IsTaken p s [] o h k = tt
  All-IsTaken p s ((t, x) ∷ ps) o h k =
      (step-IsTaken cap two p s t x o h k.0, All-IsTaken p s ps o h k.1)

  IsApart-of_taken :
      (s : Shared A) (h : ℕ) (ps : List (ℕ × Option A))
      → s.version (h % cap) ≡ suc h
      → All (IsTaken cap s) ps
      → IsApart h ps
  IsApart-of_taken s h [] e k = tt
  IsApart-of_taken s h ((t, x) ∷ ps) e k = (
    λ same. ground (arith, k.0, ap (λ u. s.version (u % cap)) same),
    IsApart-of_taken s h ps e k.1,
  )

  same_taken :
      (p : Pc A) (s : Shared A)
      → (step cap p s).0.taken ≡ s.taken
      → IsOrdered cap s
      → Holds cap s p
      → All (IsTaken cap s) s.taken
      → AreDistinct s.taken
      → All (IsTaken cap (step cap p s).0) (step cap p s).0.taken
        × AreDistinct (step cap p s).0.taken
  same_taken p s e o h k d = (
    subst (All (IsTaken cap (step cap p s).0)) (sym e) (All-IsTaken p s s.taken o h k),
    subst AreDistinct (sym e) d,
  )

  -- A completed pop adds a ticket that was not spent before; the other steps add none.
  pub step-taken :
      (p : Pc A) (s : Shared A)
      → IsOrdered cap s
      → Holds cap s p
      → All (IsTaken cap s) s.taken
      → AreDistinct s.taken
      → All (IsTaken cap (step cap p s).0) (step cap p s).0.taken
        × AreDistinct (step cap p s).0.taken
  unfolding step
  step-taken (pop_copied t x) s o h k d = (
    ((h.0, h.2, ground arith), All-IsTaken (pop_copied t x) s s.taken o h k),
    (IsApart-of_taken s t s.taken h.1 k, d),
  )
  step-taken (push_ready v t) s o h k d = same_taken (push_ready v t) s (ground arith) o h k d
  step-taken (pop_ready t) s o h k d = same_taken (pop_ready t) s (ground arith) o h k d
  step-taken p s o h k d = same_taken p s refl o h k d

  -- The version at the slot of a ticket that a thread holds.
  pub push_ticket-version :
      (p : Pc A) (s : Shared A) (t : ℕ)
      → Holds cap s p
      → push_ticket p ≡ some t
      → s.version (t % cap) ≡ t
  push_ticket-version (push_claimed v u) s t h e =
      let same : u ≡ t = cc in subst (λ k. s.version (k % cap) ≡ k) same h.1
  push_ticket-version (push_written v u) s t h e =
      let same : u ≡ t = cc in subst (λ k. s.version (k % cap) ≡ k) same h.1
  push_ticket-version idle s t h e = absurd (cc)
  push_ticket-version (push_loaded v u) s t h e = absurd (cc)
  push_ticket-version (push_ready v u) s t h e = absurd (cc)
  push_ticket-version (pop_loaded u) s t h e = absurd (cc)
  push_ticket-version (pop_ready u) s t h e = absurd (cc)
  push_ticket-version (pop_claimed u) s t h e = absurd (cc)
  push_ticket-version (pop_copied u x) s t h e = absurd (cc)

  pub pop_ticket-version :
      (p : Pc A) (s : Shared A) (t : ℕ)
      → Holds cap s p
      → pop_ticket p ≡ some t
      → s.version (t % cap) ≡ suc t
  pop_ticket-version (pop_claimed u) s t h e =
      let same : u ≡ t = cc in subst (λ k. s.version (k % cap) ≡ suc k) same h.1
  pop_ticket-version (pop_copied u x) s t h e =
      let same : u ≡ t = cc in subst (λ k. s.version (k % cap) ≡ suc k) same h.1
  pop_ticket-version idle s t h e = absurd (cc)
  pop_ticket-version (push_loaded v u) s t h e = absurd (cc)
  pop_ticket-version (push_ready v u) s t h e = absurd (cc)
  pop_ticket-version (push_claimed v u) s t h e = absurd (cc)
  pop_ticket-version (push_written v u) s t h e = absurd (cc)
  pop_ticket-version (pop_loaded u) s t h e = absurd (cc)
  pop_ticket-version (pop_ready u) s t h e = absurd (cc)

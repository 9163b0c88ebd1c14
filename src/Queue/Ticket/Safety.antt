-- ===== src/Queue/Ticket/Safety.antt =====
-- Every reachable state is valid, and what that says of pushes and pops.
use broker_proxy.Base.{
  ℕ, suc, ◌%◌, ◌≤◌, ◌<◌, ◌≡◌, ◌≢◌, inl, inr, refl, ap, sym, ◌∙◌, Option, none, some, List, [], ◌∷◌,
  All, ◌==◌, Bool-cases, arith,
}
use broker_proxy.Queue.Ticket.{
  Pc, push_loaded, pop_loaded, Shared, World, update, empty, start, step, act, Step, begin_push,
  begin_pop, go_on, Reach, at_start, then_step,
}
use broker_proxy.Queue.Ticket.Slots.{slot_ne_suc}
use broker_proxy.Queue.Ticket.Invariant.{
  push_ticket, pop_ticket, Holds, IsTaken, AreDistinct, IsOrdered, IsValid, NoClash,
}
use broker_proxy.Queue.Ticket.Keep.{step-IsOrdered, step-Holds}
use broker_proxy.Queue.Ticket.Frame.{step-frame}
use broker_proxy.Queue.Ticket.Tickets.{
  push_ticket-step, pop_ticket-step, push_ticket-lt, pop_ticket-lt, push_ticket-version,
  pop_ticket-version, step-taken,
}

module _ {A : Type 0} (cap : ℕ) (two : 2 ≤ cap) where
  module _ (w : World A) (valid : IsValid cap w) where
    open valid use {ordered, threads, one_push, one_pop, spent, distinct}

    -- A thread that goes to another point, where its ticket is its own.
    moved :
        (i : ℕ) (p : Pc A) (s : Shared A)
        → IsOrdered cap s
        → Holds cap s p
        → ((j : ℕ) → j ≢ i → Holds cap s (w.pc j))
        → ((j : ℕ) → j ≢ i → NoClash p (w.pc j))
        → All (IsTaken cap s) s.taken
        → AreDistinct s.taken
        → IsValid cap (record { shared = s; pc = update w.pc i p })
    moved i p s o h others apart k d = record {
      ordered = o;
      threads = λ j. elim (Bool-cases (j == i)) [
        | inl e ↦ rw e h
        | inr e ↦ rw e (others j (λ same. ground arith))
      ];
      one_push = λ j l t e f.
          ground
            (arith, one_push j l t, λ (a : j ≢ i). (apart j a).0 t, λ (a : l ≢ i). (apart l a).0 t);
      one_pop = λ j l t e f.
          ground
            (arith, one_pop j l t, λ (a : j ≢ i). (apart j a).1 t, λ (a : l ≢ i). (apart l a).1 t);
      spent = k;
      distinct = d;
    }

    -- The tickets of a thread that takes a step, against another thread.
    apart_after : (i j : ℕ) → j ≢ i → NoClash (step cap (w.pc i) w.shared).1 (w.pc j)
    apart_after i j ne = (
      λ t e f. elim (push_ticket-step cap two (w.pc i) w.shared t e) [
        | inl old ↦ ne (sym (one_push i j t old f))
        | inr new ↦ ground (arith, push_ticket-lt cap two (w.pc j) w.shared t (threads j) f)
      ],
      λ t e f. elim (pop_ticket-step cap two (w.pc i) w.shared t e) [
        | inl old ↦ ne (sym (one_pop i j t old f))
        | inr new ↦ ground (arith, pop_ticket-lt cap two (w.pc j) w.shared t (threads j) f)
      ],
    )

    apart_before : (i j : ℕ) → j ≢ i → NoClash (w.pc i) (w.pc j)
    apart_before i j ne =
        (λ t e f. ne (sym (one_push i j t e f)), λ t e f. ne (sym (one_pop i j t e f)))

    act-IsValid : (i : ℕ) → IsValid cap (act cap i w)
    act-IsValid i =
        moved i (step cap (w.pc i) w.shared).1 (step cap (w.pc i) w.shared).0
          (step-IsOrdered cap two (w.pc i) w.shared ordered (threads i))
          (step-Holds cap two (w.pc i) w.shared ordered (threads i))
          (λ j ne.
            step-frame cap two (w.pc i) w.shared (w.pc j) ordered (threads i) (apart_before i j ne)
              (threads j))
          (apart_after i) taken.0 taken.1
      where
        taken :
            All (IsTaken cap (step cap (w.pc i) w.shared).0) (step cap (w.pc i) w.shared).0.taken
            × AreDistinct (step cap (w.pc i) w.shared).0.taken
        taken = step-taken cap two (w.pc i) w.shared ordered (threads i) spent distinct

  -- Every step keeps the invariant.
  pub Step-IsValid : {w w' : World A} → Step cap w w' → IsValid cap w → IsValid cap w'
  Step-IsValid (begin_push i v w e) valid =
      moved w valid i (push_loaded v w.shared.tail) w.shared valid.ordered tt
        (λ j ne. valid.threads j) (λ j ne. (λ t f g. cc, λ t f g. cc)) valid.spent valid.distinct
  Step-IsValid (begin_pop i w e) valid =
      moved w valid i (pop_loaded w.shared.head) w.shared valid.ordered tt (λ j ne. valid.threads j)
        (λ j ne. (λ t f g. cc, λ t f g. cc)) valid.spent valid.distinct
  Step-IsValid (go_on i w) valid = act-IsValid w valid i

  pub start-IsValid : IsValid {A = A} cap start
  unfolding empty
  start-IsValid = record {
    ordered = record {
      order = omega arith;
      to_push = λ t le. omega arith;
      to_pop = λ t le. omega arith;
      stored = λ t e. refl;
      logged = λ t lt e. absurd (omega arith);
    };
    threads = λ i. tt;
    one_push = λ i j t e f. cc;
    one_pop = λ i j t e f. cc;
    spent = tt;
    distinct = tt;
  }

  pub Reach-IsValid : {w : World A} → Reach cap w → IsValid cap w
  Reach-IsValid at_start = start-IsValid
  Reach-IsValid (then_step r st) = Step-IsValid st (Reach-IsValid r)

  -- In a queue with two slots or more, whatever the threads do: the pops that have succeeded have
  -- distinct tickets, each below `m_head`, which is at most `m_tail`; and the pop with the ticket
  -- `h` has delivered the value of the push with the ticket `h`, which there is. So no value is
  -- delivered twice, none is made up, and values are handed out in the order of the tickets.
  pub pops_match_pushes :
      {w : World A}
      → Reach cap w
      → (w.shared.head ≤ w.shared.tail)
        × AreDistinct w.shared.taken
        × All
            (λ (p : ℕ × Option A).
              (p.0 < w.shared.head) × (p.1 ≡ w.shared.log p.0) × (p.1 ≡ none → ⊥))
            w.shared.taken
  pops_match_pushes {w} r = (valid.ordered.order, valid.distinct, each w.shared.taken valid.spent)
    where
      valid : IsValid cap w
      valid = Reach-IsValid r

      each :
          (ps : List (ℕ × Option A))
          → All (IsTaken cap w.shared) ps
          → All
              (λ (p : ℕ × Option A).
                (p.0 < w.shared.head) × (p.1 ≡ w.shared.log p.0) × (p.1 ≡ none → ⊥))
              ps
      each [] k = tt
      each ((h, x) ∷ ps) k = (
        (
          k.0.0,
          k.0.1,
          λ e. valid.ordered.logged h (ground (arith, k.0, valid.ordered.order)) (sym k.0.1 ∙ e),
        ),
        each ps k.1,
      )

  -- While one thread stores a value with the ticket `t` and another reads one with the ticket `h`,
  -- they are not at the same slot.
  pub no_race :
      {w : World A} (i j t h : ℕ)
      → Reach cap w
      → push_ticket (w.pc i) ≡ some t
      → pop_ticket (w.pc j) ≡ some h
      → t % cap ≢ h % cap
  no_race {w} i j t h r e f same = slot_ne_suc cap h two (sym same ∙ ap (λ k. k % cap) tickets)
    where
      valid : IsValid cap w
      valid = Reach-IsValid r

      -- The version at the slot they would share is both `t` and `h + 1`.
      tickets : t ≡ suc h
      tickets =
          sym (push_ticket-version cap two (w.pc i) w.shared t (valid.threads i) e)
          ∙ ap w.shared.version same
          ∙ pop_ticket-version cap two (w.pc j) w.shared h (valid.threads j) f

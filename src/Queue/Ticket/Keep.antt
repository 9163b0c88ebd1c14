-- ===== src/Queue/Ticket/Keep.antt =====
-- Each step of a thread keeps the order of the versions, and what the other threads rely on.
use broker_proxy.Base.{ℕ, ◌+◌, ◌%◌, ◌≤◌, inl, inr, Option, ◌==◌, Bool-cases, arith}
use broker_proxy.Queue.Ticket.{
  Pc, idle, push_loaded, push_ready, push_claimed, push_written, pop_loaded, pop_ready, pop_claimed,
  pop_copied, Shared, step,
}
use broker_proxy.Queue.Ticket.Slots.{slot_gap}
use broker_proxy.Queue.Ticket.Invariant.{Holds, IsOrdered}

module _ {A : Type 0} (cap : ℕ) (two : 2 ≤ cap) where
  -- A store to `version` of the turn after `t`, by the thread that pushes with the ticket `t`.
  written-IsOrdered :
      (v : A) (t : ℕ) (s : Shared A)
      → IsOrdered cap s
      → Holds cap s (push_written v t)
      → IsOrdered cap (step cap (push_written v t) s).0
  unfolding step
  written-IsOrdered v t s o h = record {
    order = o.order;
    to_push = λ u le. ground (arith, o.to_push u le);
    to_pop =
        λ u le. ground (arith, o.to_pop u le, slot_gap cap t u, slot_gap cap u t, slot_gap cap u t);
    stored = λ u e. ground (arith, o.stored u, slot_gap cap t u, slot_gap cap u t);
    logged = o.logged;
  }

  copied-IsOrdered :
      (h : ℕ) (x : Option A) (s : Shared A)
      → IsOrdered cap s
      → Holds cap s (pop_copied h x)
      → IsOrdered cap (step cap (pop_copied h x) s).0
  unfolding step
  copied-IsOrdered h x s o k = record {
    order = o.order;
    to_push = λ u le. ground (arith, o.to_push u le, slot_gap cap h u, o.order);
    to_pop = λ u le. ground (arith, o.to_pop u le, slot_gap cap h u);
    stored = λ u e. ground (arith, o.stored u, slot_gap cap h u, slot_gap cap u h);
    logged = o.logged;
  }

  claimed-IsOrdered :
      (v : A) (t : ℕ) (s : Shared A)
      → IsOrdered cap s
      → Holds cap s (push_claimed v t)
      → IsOrdered cap (step cap (push_claimed v t) s).0
  unfolding step
  claimed-IsOrdered v t s o h = record {
    order = o.order;
    to_push = o.to_push;
    to_pop = o.to_pop;
    stored = λ u e. ground (arith, o.stored u e, slot_gap cap t u, slot_gap cap u t);
    logged = o.logged;
  }

  ready-IsOrdered :
      (v : A) (t : ℕ) (s : Shared A)
      → IsOrdered cap s
      → IsOrdered cap (step cap (push_ready v t) s).0
  unfolding step
  ready-IsOrdered v t s o = elim (Bool-cases (s.tail == t)) [
    | inr other ↦ rw other o
    | inl same ↦ rw same (record {
      order = ground (arith, o.order);
      to_push = λ u le. ground (arith, o.to_push u);
      to_pop = o.to_pop;
      stored = λ u e. ground (arith, o.stored u e, o.to_push u);
      logged = λ u lt e. ground (arith, o.logged u);
    })
  ]

  pop_ready-IsOrdered :
      (h : ℕ) (s : Shared A)
      → IsOrdered cap s
      → Holds cap s (pop_ready h)
      → IsOrdered cap (step cap (pop_ready h) s).0
  unfolding step
  pop_ready-IsOrdered h s o k = elim (Bool-cases (s.head == h)) [
    | inr other ↦ rw other o
    | inl same ↦ rw same (record {
      order = ground (arith, o.order, o.to_push h);
      to_push = o.to_push;
      to_pop = λ u le. ground (arith, o.to_pop u);
      stored = o.stored;
      logged = o.logged;
    })
  ]

  -- Every step keeps the order of the versions.
  pub step-IsOrdered :
      (p : Pc A) (s : Shared A) → IsOrdered cap s → Holds cap s p → IsOrdered cap (step cap p s).0
  step-IsOrdered idle s o h = unfold step in o
  step-IsOrdered (push_loaded v t) s o h = unfold step in o
  step-IsOrdered (push_ready v t) s o h = ready-IsOrdered v t s o
  step-IsOrdered (push_claimed v t) s o h = claimed-IsOrdered v t s o h
  step-IsOrdered (push_written v t) s o h = written-IsOrdered v t s o h
  step-IsOrdered (pop_loaded t) s o h = unfold step in o
  step-IsOrdered (pop_ready t) s o h = pop_ready-IsOrdered t s o h
  step-IsOrdered (pop_claimed t) s o h = unfold step in o
  step-IsOrdered (pop_copied t x) s o h = copied-IsOrdered t x s o h

  -- The thread itself may rely on what its next point asks.
  pub step-Holds :
      (p : Pc A) (s : Shared A)
      → IsOrdered cap s
      → Holds cap s p
      → Holds cap (step cap p s).0 (step cap p s).1
  unfolding step
  step-Holds idle s o h = tt
  step-Holds (push_loaded v t) s o h = elim (Bool-cases (s.version (t % cap) == t)) [
    | inl e ↦ rw e (ground arith, tt)
    | inr e ↦ rw e tt
  ]
  step-Holds (push_ready v t) s o h = elim (Bool-cases (s.tail == t)) [
    | inl e ↦ rw e (ground arith, ground (arith, o.to_push t), ground arith)
    | inr e ↦ rw e tt
  ]
  step-Holds (push_claimed v t) s o h = (h.0, h.1, h.2, ground arith)
  step-Holds (push_written v t) s o h = tt
  step-Holds (pop_loaded t) s o h = elim (Bool-cases (s.version (t % cap) == t + 1)) [
    | inl e ↦ rw e (ground arith, tt)
    | inr e ↦ rw e tt
  ]
  step-Holds (pop_ready t) s o h = elim (Bool-cases (s.head == t)) [
    | inl e ↦ rw e (ground arith, ground (arith, o.to_pop t))
    | inr e ↦ rw e tt
  ]
  step-Holds (pop_claimed t) s o h = (h.0, h.1, o.stored t h.1)
  step-Holds (pop_copied t x) s o h = tt

-- ===== src/Queue/Ticket/Frame.antt =====
-- A step of one thread leaves alone what another thread relies on.
use broker_proxy.Base.{ℕ, ◌+◌, ◌≤◌, inl, inr, Option, some, ◌==◌, eq_of_==, Bool-cases, arith}
use broker_proxy.Queue.Ticket.{
  Pc, idle, push_loaded, push_ready, push_claimed, push_written, pop_loaded, pop_ready, pop_claimed,
  pop_copied, Shared, update, step,
}
use broker_proxy.Queue.Ticket.Slots.{slot_gap}
use broker_proxy.Queue.Ticket.Invariant.{Holds, IsTaken, IsOrdered, NoClash}

module _ {A : Type 0} (cap : ℕ) (two : 2 ≤ cap) where
  written-frame :
      (v : A) (t : ℕ) (s : Shared A) (q : Pc A)
      → Holds cap s (push_written v t)
      → NoClash (push_written v t) q
      → Holds cap s q
      → Holds cap (step cap (push_written v t) s).0 q
  unfolding step
  written-frame v t s idle h n k = tt
  written-frame v t s (push_loaded y u) h n k = tt
  written-frame v t s (push_ready y u) h n k = (ground (arith, k), tt)
  written-frame v t s (push_claimed y u) h n k = (k.0, ground (arith, k, n.0 t), k.2)
  written-frame v t s (push_written y u) h n k = (k.0, ground (arith, k, n.0 t), k.2, k.3)
  written-frame v t s (pop_loaded u) h n k = tt
  written-frame v t s (pop_ready u) h n k = (ground (arith, k), tt)
  written-frame v t s (pop_claimed u) h n k = (k.0, ground (arith, k, slot_gap cap u t))
  written-frame v t s (pop_copied u x) h n k = (k.0, ground (arith, k, slot_gap cap u t), k.2)

  copied-frame :
      (h : ℕ) (x : Option A) (s : Shared A) (q : Pc A)
      → Holds cap s (pop_copied h x)
      → NoClash (pop_copied h x) q
      → Holds cap s q
      → Holds cap (step cap (pop_copied h x) s).0 q
  unfolding step
  copied-frame h x s idle g n k = tt
  copied-frame h x s (push_loaded y u) g n k = tt
  copied-frame h x s (push_ready y u) g n k = (ground (arith, k), tt)
  copied-frame h x s (push_claimed y u) g n k = (k.0, ground (arith, k, slot_gap cap h u), k.2)
  copied-frame h x s (push_written y u) g n k = (k.0, ground (arith, k, slot_gap cap h u), k.2, k.3)
  copied-frame h x s (pop_loaded u) g n k = tt
  copied-frame h x s (pop_ready u) g n k = (ground (arith, k), tt)
  copied-frame h x s (pop_claimed u) g n k = (k.0, ground (arith, k, n.1 h))
  copied-frame h x s (pop_copied u y) g n k = (k.0, ground (arith, k, n.1 h), k.2)

  claimed-frame :
      (v : A) (t : ℕ) (s : Shared A) (q : Pc A)
      → Holds cap s (push_claimed v t)
      → NoClash (push_claimed v t) q
      → Holds cap s q
      → Holds cap (step cap (push_claimed v t) s).0 q
  unfolding step
  claimed-frame v t s idle h n k = tt
  claimed-frame v t s (push_loaded y u) h n k = tt
  claimed-frame v t s (push_ready y u) h n k = k
  claimed-frame v t s (push_claimed y u) h n k = k
  claimed-frame v t s (push_written y u) h n k = (k.0, k.1, k.2, ground (arith, k, n.0 t))
  claimed-frame v t s (pop_loaded u) h n k = tt
  claimed-frame v t s (pop_ready u) h n k = k
  claimed-frame v t s (pop_claimed u) h n k = k
  claimed-frame v t s (pop_copied u x) h n k = k

  ready-frame :
      (v : A) (s : Shared A) (q : Pc A)
      → IsOrdered cap s
      → Holds cap s q
      → Holds cap (record s { tail = s.tail + 1; log = update s.log s.tail (some v) }) q
  ready-frame v s idle o k = tt
  ready-frame v s (push_loaded y u) o k = tt
  ready-frame v s (push_ready y u) o k = k
  ready-frame v s (push_claimed y u) o k = (ground (arith, k), k.1, ground (arith, k))
  ready-frame v s (push_written y u) o k = (ground (arith, k), k.1, ground (arith, k), k.3)
  ready-frame v s (pop_loaded u) o k = tt
  ready-frame v s (pop_ready u) o k = k
  ready-frame v s (pop_claimed u) o k = k
  ready-frame v s (pop_copied u x) o k = (k.0, k.1, ground (arith, k, o.order))

  pop_ready-frame :
      (s : Shared A) (q : Pc A) → Holds cap s q → Holds cap (record s { head = s.head + 1 }) q
  pop_ready-frame s idle k = tt
  pop_ready-frame s (push_loaded y u) k = tt
  pop_ready-frame s (push_ready y u) k = k
  pop_ready-frame s (push_claimed y u) k = k
  pop_ready-frame s (push_written y u) k = k
  pop_ready-frame s (pop_loaded u) k = tt
  pop_ready-frame s (pop_ready u) k = k
  pop_ready-frame s (pop_claimed u) k = (ground (arith, k), k.1)
  pop_ready-frame s (pop_copied u x) k = (ground (arith, k), k.1, k.2)

  -- What another thread relies on holds after the step.
  pub step-frame :
      (p : Pc A) (s : Shared A) (q : Pc A)
      → IsOrdered cap s
      → Holds cap s p
      → NoClash p q
      → Holds cap s q
      → Holds cap (step cap p s).0 q
  step-frame idle s q o h n k = unfold step in k
  step-frame (push_loaded v t) s q o h n k = unfold step in k
  step-frame (push_ready v t) s q o h n k =
      unfold step in
      elim (Bool-cases (s.tail == t)) [
        | inl e ↦ rw (e, ← eq_of_== s.tail t e) (ready-frame v s q o k)
        | inr e ↦ rw e k
      ]
  step-frame (push_claimed v t) s q o h n k = claimed-frame v t s q h n k
  step-frame (push_written v t) s q o h n k = written-frame v t s q h n k
  step-frame (pop_loaded t) s q o h n k = unfold step in k
  step-frame (pop_ready t) s q o h n k =
      unfold step in
      elim (Bool-cases (s.head == t)) [
        | inl e ↦ rw (e, ← eq_of_== s.head t e) (pop_ready-frame s q k)
        | inr e ↦ rw e k
      ]
  step-frame (pop_claimed t) s q o h n k = unfold step in k
  step-frame (pop_copied t x) s q o h n k = copied-frame t x s q h n k

  -- A ticket that is spent stays spent.
  pub step-IsTaken :
      (p : Pc A) (s : Shared A) (h : ℕ) (x : Option A)
      → IsOrdered cap s
      → Holds cap s p
      → IsTaken cap s (h, x)
      → IsTaken cap (step cap p s).0 (h, x)
  unfolding step
  step-IsTaken idle s h x o g k = k
  step-IsTaken (push_loaded v t) s h x o g k = k
  step-IsTaken (push_ready v t) s h x o g k = elim (Bool-cases (s.tail == t)) [
    | inl e ↦ rw e (k.0, ground (arith, o.order), k.2)
    | inr e ↦ rw e k
  ]
  step-IsTaken (push_claimed v t) s h x o g k = k
  step-IsTaken (push_written v t) s h x o g k = (k.0, k.1, ground arith)
  step-IsTaken (pop_loaded t) s h x o g k = k
  step-IsTaken (pop_ready t) s h x o g k = elim (Bool-cases (s.head == t)) [
    | inl e ↦ rw e (ground arith, k.1, k.2)
    | inr e ↦ rw e k
  ]
  step-IsTaken (pop_claimed t) s h x o g k = k
  step-IsTaken (pop_copied t y) s h x o g k = (k.0, k.1, ground arith)

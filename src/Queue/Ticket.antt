-- ===== src/Queue/Ticket.antt =====
-- common/src/limero.h, the `ArrayQueue` of the builds that are not for Arduino: any number of
-- threads push and pop without a lock. A push or a pop takes a ticket, the old value of `m_tail` or
-- `m_head`, by a compare-and-exchange; the `version` of a slot says whose turn it is there.
-- Each load, store and compare-and-exchange is one atomic step of a thread, and the steps of the
-- threads are interleaved in any order. The memory orders of the source are taken to be strong
-- enough for that, and the indices not to wrap.
pub mod Slots
pub mod Invariant
pub mod Keep
pub mod Frame
pub mod Tickets
pub mod Safety
use broker_proxy.Base.{
  ℕ, zero, suc, ◌+◌, ◌%◌, ◌≤◌, ◌<◌, ◌≡◌, Bool, true, false, Option, none, some, List, [], ◌∷◌, ◌==◌,
  if◌then◌else◌,
}

-- An array or a table of threads, with one entry changed.
abbrev pub update {ℓ} : {A : Type ℓ} → (ℕ → A) → ℕ → A → ℕ → A
update f k a j = if j == k then a else f j

-- Where a thread stands: outside, in `push` of a value, or in `pop`. Its ticket is a local
-- variable, `tail` or `head`.
pub data Pc (A : Type 0) : Type 0 where
  idle : Pc A
  -- `tail` is loaded; the version is found to be `tail`; `m_tail` is advanced; the value is stored
  push_loaded push_ready push_claimed push_written : A → ℕ → Pc A
  -- `head` is loaded; the version is found to be `head + 1`; `m_head` is advanced
  pop_loaded pop_ready pop_claimed : ℕ → Pc A
  -- the value is copied to `out`
  pop_copied : ℕ → Option A → Pc A

-- The queue. A slot holds no value until the first is stored. `log` and `taken` are not in the
-- source: they record, for each ticket of a push, its value, and the tickets and values of the
-- completed pops, the last first.
pub record Shared (A : Type 0) : Type 0 where
  pub value : ℕ → Option A
  pub version : ℕ → ℕ
  pub head : ℕ
  pub tail : ℕ
  pub log : ℕ → Option A
  pub taken : List (ℕ × Option A)

-- The queue with its threads, by their numbers.
pub record World (A : Type 0) : Type 0 where
  pub shared : Shared A
  pub pc : ℕ → Pc A

module _ {A : Type 0} where
  -- The constructor: slot `i` has version `i`.
  unfoldable pub empty : Shared A
  empty = record {
    value = λ _. none;
    version = λ i. i;
    head = 0;
    tail = 0;
    log = λ _. none;
    taken = [];
  }

  abbrev pub start : World A
  start = record { shared = empty; pc = λ _. idle }

  module _ (cap : ℕ) where
    -- The next step of a thread that stands at the given point: what it does to the queue, and where
    -- it stands then. A failed test ends the call with the result false.
    unfoldable pub step : Pc A → Shared A → Shared A × Pc A
    step idle s = (s, idle)
    step (push_loaded v t) s = (s, if s.version (t % cap) == t then push_ready v t else idle)
    step (push_ready v t) s =
        if s.tail == t
        then (record s { tail = t + 1; log = update s.log t (some v) }, push_claimed v t)
        else (s, idle)
    step (push_claimed v t) s =
        (record s { value = update s.value (t % cap) (some v) }, push_written v t)
    step (push_written v t) s = (record s { version = update s.version (t % cap) (t + 1) }, idle)
    step (pop_loaded h) s = (s, if s.version (h % cap) == h + 1 then pop_ready h else idle)
    step (pop_ready h) s =
        if s.head == h then (record s { head = h + 1 }, pop_claimed h) else (s, idle)
    step (pop_claimed h) s = (s, pop_copied h (s.value (h % cap)))
    step (pop_copied h x) s = (
      record s { version = update s.version (h % cap) (h + cap); taken = (h, x) ∷ s.taken },
      idle,
    )

    abbrev pub act : ℕ → World A → World A
    act i w = let (s, p) = step (w.pc i) w.shared in record { shared = s; pc = update w.pc i p }

    -- A thread outside starts a call with its load; a thread inside takes its next step.
    pub data Step : World A → World A → Type 0 where
      begin_push :
          (i : ℕ) (v : A) (w : World A)
          → w.pc i ≡ idle
          → Step w (record w { pc = update w.pc i (push_loaded v w.shared.tail) })
      begin_pop :
          (i : ℕ) (w : World A)
          → w.pc i ≡ idle
          → Step w (record w { pc = update w.pc i (pop_loaded w.shared.head) })
      go_on : (i : ℕ) (w : World A) → Step w (act i w)

    pub data Reach : World A → Type 0 where
      at_start : Reach start
      then_step : {v w : World A} → Reach v → Step v w → Reach w

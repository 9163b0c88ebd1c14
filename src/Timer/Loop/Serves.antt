-- ===== src/Timer/Loop/Serves.antt =====
-- Which timer or work a round of the micro-controller's thread serves.
use broker_proxy.Base.{
  ℕ, suc, ◌+◌, ◌-◌, ◌^◌, ◌≤◌, ◌<◌, ◌≡◌, ◌⊎◌, inl, inr, refl, ap, ◌∙◌, true, false, Option, none,
  some, List, ◌∷◌, ltb, ltb_of_lt, ltb_of_le, get_elem?, some_inj, arith,
}
use broker_proxy.Queue.Fifo.{Fifo, pop_some}
use broker_proxy.Timer.{TimerSource, next_timer, request_at, must_wait}
use broker_proxy.Timer.Choice.{AreLater, IsAt, AreLater-get_elem?, next_timer_lem}
use broker_proxy.Timer.Turn.{due-must_wait, request_at-due}
use broker_proxy.Timer.Loop.{idle, ran, fired, worked, emitted, expires_before, is_overdue, loop}

-- A time that is ahead by 5 seconds or less is waited for.
early-must_wait : (e now : ℕ) → now < e → e ≤ now + 5000 → now < 2 ^ 63 → must_wait e now ≡ true
early-must_wait e now lt le small = ground arith

module _ {A : Type 0} (fifo : Fifo A)
    (invoke : A → List TimerSource × fifo.State → List TimerSource × fifo.State) where
  emitted-some :
      (q : fifo.State) (r : List TimerSource × Option ℕ) (j : ℕ)
      → r.1 ≡ some j
      → ((emitted fifo invoke q r).2 ≡ fired j) × ((emitted fifo invoke q r).1 ≡ q)
  emitted-some q (ts, none) j e = absurd (cc)
  emitted-some q (ts, some i) j e = (cc, refl)

  is_overdue-at :
      (later j e : ℕ) (ts : List TimerSource)
      → IsAt ts j e
      → is_overdue fifo invoke later (some j) ts ≡ ltb e later
  is_overdue-at later j e ts (t, found, same) =
      ap (expires_before fifo invoke later) found ∙ ap (λ x. ltb x later) same

  -- An overdue timer goes before work: if some timer expired before the clock is looked at for the
  -- test, and none by 2^31 milliseconds or more, then a round emits a timer that is due first, and
  -- takes no work from the queue.
  pub loop-due :
      (now later at again k : ℕ) (t : TimerSource) (ts : List TimerSource) (q : fifo.State)
      → get_elem? ts k ≡ some t
      → t.expire_time ≤ now
      → t.expire_time < later
      → later ≤ at
      → now < 2 ^ 63
      → AreLater (now - (2 ^ 31 - 1)) ts
      → (j e : ℕ) × ((loop fifo invoke now later at again ts q).2 ≡ fired j)
        × ((loop fifo invoke now later at again ts q).1 ≡ q)
        × IsAt ts j e
        × AreLater e ts
  unfolding loop
  loop-due now later at again k t ts q found due over clock small near = elim choice [
    | inl (r, same) ↦ absurd (omega (arith, same, soon))
    | inr (j, place, lt, r) ↦
        (let near_e : now - (2 ^ 31 - 1) ≤ e =
            omega
              (arith, AreLater-get_elem? ts j (now - (2 ^ 31 - 1)) place.0 near place.1, place.2) in
          let no_wait : must_wait e now ≡ false =
            due-must_wait e now (omega (arith, soon, due)) (omega arith) small in
          let yes : is_overdue fifo invoke later (some j) ts ≡ true =
            is_overdue-at later j e ts place ∙ ltb_of_lt e later (omega (arith, soon, over)) in
          let done =
            emitted-some q (request_at at again (some j) ts) j
              (request_at-due at again j e ts place (omega (arith, soon, over, clock))) in
          (j, e, rw (no_wait, r, yes) done.0, rw (no_wait, r, yes) done.1, place, first))
  ]
    where
      e : ℕ
      e = (next_timer now ts).1

      first : AreLater e ts
      first = (next_timer_lem now ts).0

      choice :
          (((next_timer now ts).0 ≡ none) × (e ≡ now + 5000))
          ⊎ ((j : ℕ) × IsAt ts j e × (e < now + 5000) × ((next_timer now ts).0 ≡ some j))
      choice = (next_timer_lem now ts).1

      soon : e ≤ t.expire_time
      soon = AreLater-get_elem? ts k e t first found

  worked-some :
      (ts : List TimerSource) (r : fifo.State × Option A) (x : A)
      → r.1 ≡ some x
      → worked fifo invoke ts r ≡ (let done = invoke x (ts, r.0) in (done.0, done.1, ran x))
  worked-some ts (q, none) x e = absurd (cc)
  worked-some ts (q, some a) x e =
      ap (λ b. let done = invoke b (ts, q) in (done.0, done.1, ran b)) (some_inj a x e)

  -- Where no timer is due at the head of a round, the round takes the work that has waited longest off
  -- the queue and runs it, on the timers as they are: whatever the work does to the timers and to
  -- the queue behind it is all that the round does, however the clock goes on.
  pub loop-work :
      (now later at again : ℕ) (ts : List TimerSource) (q : fifo.State) (x : A) (xs : List A)
      → AreLater (suc now) ts
      → now < 2 ^ 63
      → fifo.IsValid q
      → fifo.items q ≡ x ∷ xs
      → (q' : fifo.State) × (fifo.items q' ≡ xs)
        × fifo.IsValid q'
        × (loop fifo invoke now later at again ts q
            ≡ (let done = invoke x (ts, q') in (done.0, done.1, ran x)))
  unfolding loop
  loop-work now later at again ts q x xs ahead small valid front = (
    (fifo.pop q).0,
    popped.0,
    fifo.pop_valid q valid,
    rw wait (worked-some ts (fifo.pop q) x popped.1),
  )
    where
      e : ℕ
      e = (next_timer now ts).1

      is_ahead :
          (((next_timer now ts).0 ≡ none) × (e ≡ now + 5000))
            ⊎ ((j : ℕ) × IsAt ts j e × (e < now + 5000) × ((next_timer now ts).0 ≡ some j))
          → (now < e) × (e ≤ now + 5000)
      is_ahead (inl (r, same)) = (omega (arith, same), omega (arith, same))
      is_ahead (inr (j, place, lt, r)) = (
        omega (arith, AreLater-get_elem? ts j (suc now) place.0 ahead place.1, place.2),
        omega (arith, lt),
      )

      wait : must_wait e now ≡ true
      wait = let h = is_ahead (next_timer_lem now ts).1 in early-must_wait e now h.0 h.1 small

      popped : (fifo.items (fifo.pop q).0 ≡ xs) × ((fifo.pop q).1 ≡ some x)
      popped = pop_some fifo x xs q valid front

  -- A round in which a timer is due at this very millisecond, none was due before, and the clock
  -- stands still, neither emits the timer nor runs any work.
  loop-stalls :
      (now at again k : ℕ) (t : TimerSource) (ts : List TimerSource) (q : fifo.State)
      → get_elem? ts k ≡ some t
      → t.expire_time ≡ now
      → AreLater now ts
      → now < 2 ^ 63
      → loop fifo invoke now now at again ts q ≡ (ts, q, idle)
  unfolding loop
  loop-stalls now at again k t ts q found due later small = elim choice [
    | inl (r, same) ↦ absurd (omega (arith, same, soon))
    | inr (j, place, lt, r) ↦
        (let not_before : now ≤ e =
            omega (arith, AreLater-get_elem? ts j now place.0 later place.1, place.2) in
          let no_wait : must_wait e now ≡ false = due-must_wait e now soon (omega arith) small in
          let no : is_overdue fifo invoke now (some j) ts ≡ false =
            is_overdue-at now j e ts place ∙ ltb_of_le e now not_before in
          rw (no_wait, r, no) refl)
  ]
    where
      e : ℕ
      e = (next_timer now ts).1

      first : AreLater e ts
      first = (next_timer_lem now ts).0

      choice :
          (((next_timer now ts).0 ≡ none) × (e ≡ now + 5000))
          ⊎ ((j : ℕ) × IsAt ts j e × (e < now + 5000) × ((next_timer now ts).0 ≡ some j))
      choice = (next_timer_lem now ts).1

      soon : e ≤ now
      soon = omega (arith, AreLater-get_elem? ts k e t first found, due)

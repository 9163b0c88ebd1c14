-- ===== src/Timer/Turn.antt =====
-- What one turn of a thread does with its timers.
use mathlib.Core.Path.{subst}
use broker_proxy.Base.{
  ℕ, ◌+◌, ◌-◌, ◌^◌, ◌≤◌, ◌<◌, ◌≡◌, ◌⊎◌, inl, inr, refl, sym, ◌∙◌, Bool, true, false, Option, none,
  some, List, leb, get_elem?, Bool-cases, arith,
}
use broker_proxy.Timer.{TimerSource, request, next_timer, fire, request_at, must_wait, turn}
use broker_proxy.Timer.Choice.{AreLater, IsAt, AreLater-get_elem?, next_timer_lem}

-- A timer that has expired, and not by 2^31 milliseconds (24 days) or more, is not waited for.
pub due-must_wait :
    (e now : ℕ) → e ≤ now → now < e + 2 ^ 31 → now < 2 ^ 63 → must_wait e now ≡ false
due-must_wait e now le near small = ground arith

request-due :
    (now again : ℕ) (t : TimerSource) → t.expire_time ≤ now → (request now again t).1 ≡ true
unfolding request
request-due now again t due = ground arith

-- A request on the chosen timer, when it is due.
pub request_at-due :
    (later again k e : ℕ) (ts : List TimerSource)
    → IsAt ts k e
    → e ≤ later
    → (request_at later again (some k) ts).1 ≡ some k
request_at-due later again k e ts (t, found, same) due =
    rw (found, request-due later again t (omega (arith, same))) refl

-- If some timer is due, and none by 2^31 milliseconds or more, then the turn emits a timer that is
-- due first, whatever else happens to the thread and whenever the timer looks at the clock.
pub turn-due :
    (now later again : ℕ) (timed_out : Bool) (ts : List TimerSource) (k : ℕ) (t : TimerSource)
    → get_elem? ts k ≡ some t
    → t.expire_time ≤ now
    → now ≤ later
    → now < 2 ^ 63
    → AreLater (now - (2 ^ 31 - 1)) ts
    → (j e : ℕ) × ((turn now timed_out later again ts).1 ≡ some j) × IsAt ts j e × AreLater e ts
unfolding turn
turn-due now later again timed_out ts k t found due clock small near = elim choice [
  | inl (r, same) ↦ absurd (omega (arith, same, soon))
  | inr (j, at, lt, r) ↦
      let near_e : now - (2 ^ 31 - 1) ≤ e =
        omega (arith, AreLater-get_elem? ts j (now - (2 ^ 31 - 1)) at.0 near at.1, at.2) in
      let no_wait : must_wait e now ≡ false = due-must_wait e now soon (omega arith) small in
      (
        j,
        e,
        rw (no_wait, r) (request_at-due later again j e ts at (omega (arith, soon))),
        at,
        first,
      )
]
  where
    e : ℕ
    e = (next_timer now ts).1

    first : AreLater e ts
    first = (next_timer_lem now ts).0

    choice :
        (((next_timer now ts).0 ≡ none) × (e ≡ now + 5000))
        ⊎ ((j : ℕ) × IsAt ts j e × (e < now + 5000) × ((next_timer now ts).0 ≡ some j))
    choice = (next_timer_lem now ts).1

    soon : e ≤ now
    soon = omega (arith, AreLater-get_elem? ts k e t first found, due)

-- What `request_at` emits is at the position asked for, and due.
fire-some :
    (later again i j : ℕ) (ts : List TimerSource) (o : Option TimerSource)
    → (fire later again i ts o).1 ≡ some j
    → (i ≡ j) × (t : TimerSource) × (o ≡ some t) × (t.expire_time ≤ later)
unfolding request
fire-some later again i j ts none e = absurd (cc)
fire-some later again i j ts (some t) e = elim (Bool-cases (leb t.expire_time later)) [
  | inl due ↦
      let fired : (fire later again i ts (some t)).1 ≡ some i = rw due refl in
      let same : some i ≡ some j = sym fired ∙ e in (cc, t, refl, ground arith)
  | inr early ↦
      let quiet : (fire later again i ts (some t)).1 ≡ none = rw early refl in
      let wrong : none ≡ some j = sym quiet ∙ e in absurd (cc)
]

-- What a turn emits is what `request` on the chosen timer emits.
turn-request_at :
    (now later again j : ℕ) (timed_out : Bool) (ts : List TimerSource)
    → (turn now timed_out later again ts).1 ≡ some j
    → (request_at later again (next_timer now ts).0 ts).1 ≡ some j
unfolding turn
turn-request_at now later again j true ts e = ground arith
turn-request_at now later again j false ts e = ground arith

-- A turn emits a timer only when it is due, and then one that is due first.
pub turn-emits :
    (now later again j : ℕ) (timed_out : Bool) (ts : List TimerSource)
    → (turn now timed_out later again ts).1 ≡ some j
    → (e : ℕ) × IsAt ts j e × (e ≤ later) × AreLater e ts
turn-emits now later again j timed_out ts emitted = elim choice [
  | inl (r, same) ↦ let wrong : none ≡ some j = sym (rw r refl) ∙ asked in absurd (cc)
  | inr (k, at, lt, r) ↦
      let (same, t, found, due) =
        fire-some later again k j ts (get_elem? ts k) (sym (rw r refl) ∙ asked) in
      (
        e,
        subst (λ i. IsAt ts i e) same at,
        omega (arith, AreLater-get_elem? ts k e t first found, due),
        first,
      )
]
  where
    e : ℕ
    e = (next_timer now ts).1

    first : AreLater e ts
    first = (next_timer_lem now ts).0

    choice :
        (((next_timer now ts).0 ≡ none) × (e ≡ now + 5000))
        ⊎ ((k : ℕ) × IsAt ts k e × (e < now + 5000) × ((next_timer now ts).0 ≡ some k))
    choice = (next_timer_lem now ts).1

    asked : (request_at later again (next_timer now ts).0 ts).1 ≡ some j
    asked = turn-request_at now later again j timed_out ts emitted

-- ===== src/Timer/Choice.antt =====
-- The timer that a thread waits for is one that expires first.
use mathlib.Core.Path.{subst}
use broker_proxy.Base.{
  lt_of_ltb, le_of_ltb, ap, sym, ◌∙◌, ℕ, zero, suc, ◌+◌, ◌≤◌, ◌<◌, ◌≡◌, ◌⊎◌, inl, inr, refl, Option,
  none, some, List, [], ◌∷◌, All, ltb, get_elem?, Bool-cases, arith,
}
use broker_proxy.Timer.{TimerSource, find_expired, next_timer}

-- Every timer of the list expires at the given time or later.
abbrev pub AreLater : ℕ → List TimerSource → Type 0
AreLater e ts = All (λ (t : TimerSource). e ≤ t.expire_time) ts

-- The position `r` is that of a timer that expires at the time `e`.
abbrev pub IsAt : List TimerSource → ℕ → ℕ → Type 0
IsAt ts k e = (t : TimerSource) × (get_elem? ts k ≡ some t) × (t.expire_time ≡ e)

-- What the loop has found: nothing that expires before `e`, or a first timer of `ts`.
abbrev Found : List TimerSource → ℕ → ℕ → Option ℕ → Option ℕ × ℕ → Type 0
Found ts i e x (r, e') =
    ((r ≡ x) × (e' ≡ e)) ⊎ ((k : ℕ) × IsAt ts k e' × (e' < e) × (r ≡ some (i + k)))

weaken-AreLater : (a b : ℕ) (ts : List TimerSource) → a ≤ b → AreLater b ts → AreLater a ts
weaken-AreLater a b [] le l = tt
weaken-AreLater a b (t ∷ ts) le l = (omega (arith, l.0), weaken-AreLater a b ts le l.1)

abbrev Spec : List TimerSource → ℕ → ℕ → Option ℕ → Option ℕ × ℕ → Type 0
Spec ts i e x s = (s.1 ≤ e) × AreLater s.1 ts × Found ts i e x s

Found-of_next :
    (t : TimerSource) (ts : List TimerSource) (i e : ℕ) (x : Option ℕ) (s : Option ℕ × ℕ)
    → Found ts (i + 1) e x s
    → Found (t ∷ ts) i e x s
Found-of_next t ts i e x s (inl same) = inl same
Found-of_next t ts i e x s (inr (k, at, lt, r)) = inr (suc k, at, lt, r ∙ ap some (omega arith))

Found-of_sooner :
    (t : TimerSource) (ts : List TimerSource) (i e : ℕ) (x : Option ℕ) (s : Option ℕ × ℕ)
    → t.expire_time < e
    → Found ts (i + 1) t.expire_time (some i) s
    → Found (t ∷ ts) i e x s
Found-of_sooner t ts i e x s lt (inl (r, same)) =
    inr (0, (t, refl, sym same), omega (arith, lt, same), r ∙ ap some (omega arith))
Found-of_sooner t ts i e x s lt (inr (k, at, lt', r)) =
    inr (suc k, at, omega (arith, lt, lt'), r ∙ ap some (omega arith))

find_expired_lem :
    (ts : List TimerSource) (i e : ℕ) (x : Option ℕ) → Spec ts i e x (find_expired ts i e x)
find_expired_lem [] i e x = (omega arith, tt, inl (refl, refl))
find_expired_lem (t ∷ ts) i e x = elim (Bool-cases (ltb t.expire_time e)) [
  | inl sooner ↦
      let lt : t.expire_time < e = lt_of_ltb t.expire_time e sooner in
      let (le, later, found) = find_expired_lem ts (i + 1) t.expire_time (some i) in
      subst (Spec (t ∷ ts) i e x) (rw sooner refl) (
        omega (arith, le, lt),
        (le, later),
        Found-of_sooner t ts i e x (find_expired ts (i + 1) t.expire_time (some i)) lt found,
      )
  | inr not_sooner ↦
      let ge : e ≤ t.expire_time = le_of_ltb t.expire_time e not_sooner in
      let (le, later, found) = find_expired_lem ts (i + 1) e x in
      subst (Spec (t ∷ ts) i e x) (rw not_sooner refl) (
        le,
        (omega (arith, le, ge), later),
        Found-of_next t ts i e x (find_expired ts (i + 1) e x) found,
      )
]

Found-from_zero :
    (ts : List TimerSource) (e : ℕ) (x : Option ℕ) (s : Option ℕ × ℕ)
    → Found ts 0 e x s
    → ((s.0 ≡ x) × (s.1 ≡ e)) ⊎ ((k : ℕ) × IsAt ts k s.1 × (s.1 < e) × (s.0 ≡ some k))
Found-from_zero ts e x s (inl same) = inl same
Found-from_zero ts e x s (inr (k, at, lt, r)) = inr (k, at, lt, r ∙ ap some (omega arith))

-- The loop of `Thread::run` finds the time at which it must look again: no timer expires before
-- it, and either it is 5 seconds from now and no timer is chosen, or it is sooner and is the time
-- of the chosen timer.
pub next_timer_lem :
    (now : ℕ) (ts : List TimerSource)
    → let s = next_timer now ts in
      AreLater s.1 ts
      × (((s.0 ≡ none) × (s.1 ≡ now + 5000))
          ⊎ ((k : ℕ) × IsAt ts k s.1 × (s.1 < now + 5000) × (s.0 ≡ some k)))
unfolding next_timer
next_timer_lem now ts =
    let (le, later, found) = find_expired_lem ts 0 (now + 5000) none in
    (later, Found-from_zero ts (now + 5000) none (find_expired ts 0 (now + 5000) none) found)

-- A time before which no timer expires, at the timer at a position.
pub AreLater-get_elem? :
    (ts : List TimerSource) (k e : ℕ) (t : TimerSource)
    → AreLater e ts
    → get_elem? ts k ≡ some t
    → e ≤ t.expire_time
AreLater-get_elem? [] k e t l g = absurd (cc)
AreLater-get_elem? (u ∷ ts) zero e t l g =
    let same : u ≡ t = cc in omega (arith, l.0, ap (λ (v : TimerSource). v.expire_time) same)
AreLater-get_elem? (u ∷ ts) (suc k) e t l g = AreLater-get_elem? ts k e t l.1 g

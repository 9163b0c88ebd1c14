-- ===== src/Timer/Rate.antt =====
-- How often a repeating timer of common/src/limero.h emits.
use broker_proxy.Base.{
  ℕ, suc, ◌+◌, ◌*◌, ◌^◌, ◌≤◌, ◌<◌, ◌≡◌, refl, ap, Bool, true, false, List, [], ◌∷◌, All, leb,
  Bool-cases, inl, inr, arith,
}
use broker_proxy.Timer.{TimerSource, request}

-- Calls of `request`, each with the two times at which it reads the clock, and how many of them emit.
abbrev pub counted : Bool → ℕ → ℕ
counted true n = suc n
counted false n = n

abbrev pub requests : List (ℕ × ℕ) → TimerSource → TimerSource × ℕ
requests [] t = (t, 0)
requests ((now, again) ∷ reads) t =
    let r = request now again t in let rest = requests reads r.0 in (rest.0, counted r.1 rest.1)

-- The clock goes forward within a call, and not beyond `e`.
abbrev pub IsRead : ℕ → ℕ × ℕ → Type 0
IsRead e (now, again) = (now ≤ again) × (again ≤ e)

abbrev gain : Bool → ℕ → ℕ
gain true i = i
gain false i = 0

-- A timer that runs on after a call, further by its interval if it has emitted.
abbrev Advances : ℕ → TimerSource → TimerSource × Bool → Type 0
Advances e t r =
    (r.0.interval ≡ t.interval)
    × (r.0.is_repeat ≡ true)
    × (t.expire_time + gain r.1 t.interval ≤ r.0.expire_time)
    × (r.0.expire_time ≤ e + t.interval)

request-Advances :
    (e now again : ℕ) (t : TimerSource)
    → IsRead e (now, again)
    → e + t.interval < 2 ^ 64
    → t.expire_time ≤ e + t.interval
    → t.is_repeat ≡ true
    → Advances e t (request now again t)
unfolding request
request-Advances e now again t read small fits repeats = elim (Bool-cases (leb t.expire_time now)) [
  | inl due ↦ rw (due, repeats) (refl, refl, ground arith, ground arith)
  | inr early ↦ rw early (refl, repeats, omega arith, fits)
]

counted-gain : (b : Bool) (n i : ℕ) → counted b n * i ≡ n * i + gain b i
counted-gain true n i = omega arith
counted-gain false n i = omega arith

requests-Advances :
    (e : ℕ) (reads : List (ℕ × ℕ)) (t : TimerSource)
    → All (IsRead e) reads
    → e + t.interval < 2 ^ 64
    → t.expire_time ≤ e + t.interval
    → t.is_repeat ≡ true
    → ((requests reads t).1 * t.interval + t.expire_time ≤ (requests reads t).0.expire_time)
      × ((requests reads t).0.expire_time ≤ e + t.interval)
requests-Advances e [] t h small fits repeats = (omega arith, fits)
requests-Advances e ((now, again) ∷ reads) t h small fits repeats =
    let r = request now again t in
    let step = request-Advances e now again t h.0 small fits repeats in
    let rest =
      requests-Advances e reads r.0 h.1 (omega (arith, step.0, small))
        (omega (arith, step.0, step.3)) step.1 in
    let same : (requests reads r.0).1 * r.0.interval ≡ (requests reads r.0).1 * t.interval =
      ap (λ i. (requests reads r.0).1 * i) step.0 in
    (
      omega (arith, counted-gain r.1 (requests reads r.0).1 t.interval, step.2, rest.0, same),
      omega (arith, rest.1, step.0),
    )

-- A repeating timer emits no more often than its interval allows: whenever its calls come, and
-- however many, as long as the clock goes forward within each and not beyond a time `e`, the number
-- of times that it emits, by its interval, is at most what lies between the time when it was first
-- due and one interval behind `e`, within the 64 bits of the clock.
pub requests-rate :
    (e : ℕ) (reads : List (ℕ × ℕ)) (t : TimerSource)
    → All (IsRead e) reads
    → e + t.interval < 2 ^ 64
    → t.expire_time ≤ e + t.interval
    → t.is_repeat ≡ true
    → t.expire_time + (requests reads t).1 * t.interval ≤ e + t.interval
requests-rate e reads t h small fits repeats =
    let r = requests-Advances e reads t h small fits repeats in omega (arith, r.0, r.1)

-- ===== src/EspTool/Wait.antt =====
-- proxy/src/DtrRts.cpp: `command` comes back.
use broker_proxy.Base.{
  ℕ, zero, suc, ◌+◌, ◌≤◌, ◌<◌, ◌≡◌, ◌≢◌, ◌⊎◌, inl, inr, refl, ap, Option, none, some, List, [], ◌∷◌,
  ltb, Bool-cases, lt_of_ltb, le_of_ltb, arith,
}
use broker_proxy.EspTool.{
  Device, after_flush, flush, after_read, await, command, to_slip, to_packet,
}

-- The clock of the operating system does not go back, and `usleep(1000)` takes a millisecond at
-- least.
pub record Clock {W : Type 0} (d : Device W) : Type 0 where
  pub after_sleep : (w : W) → suc (d.millis w) ≤ d.millis (d.sleep_ms w)
  pub after_reading : (w : W) → d.millis w ≤ d.millis (d.read w).0
  pub after_write : (bs : List ℕ) (w : W) → d.millis w ≤ d.millis (d.write bs w)

-- An answer that came in time, or the deadline passed.
abbrev pub IsTimely : {W : Type 0} → Device W → ℕ → W × List ℕ → Type 0
IsTimely d deadline (w, bs) = (bs ≢ []) ⊎ ((bs ≡ []) × (deadline ≤ d.millis w))

module _ {W : Type 0} (d : Device W) (clock : Clock d) where
  Comes : ℕ → Option (W × List ℕ) → Type 0
  Comes deadline o = (r : W × List ℕ) × (o ≡ some r) × IsTimely d deadline r

  after_read-Comes :
      (deadline : ℕ) (rest : W → Option (W × List ℕ)) (r : W × List ℕ)
      → ((w : W) → d.millis r.0 < d.millis w → Comes deadline (rest w))
      → Comes deadline (after_read d rest r)
  unfolding Comes
  after_read-Comes deadline rest (w, []) h = h (d.sleep_ms w) (clock.after_sleep w)
  after_read-Comes deadline rest (w, b ∷ bs) h = ((w, b ∷ bs), refl, inl (λ e. absurd (cc)))

  await-Comes :
      (fuel deadline : ℕ) (w : W)
      → 0 < fuel
      → deadline < fuel + d.millis w
      → Comes deadline (await d fuel deadline w)
  unfolding Comes
  await-Comes zero deadline w pos enough = absurd (omega arith)
  await-Comes (suc fuel) deadline w pos enough = elim (Bool-cases (ltb (d.millis w) deadline)) [
    | inl e ↦ rw e (
        after_read-Comes deadline (await d fuel deadline) (d.read w) (λ w' later.
          await-Comes fuel deadline w' (omega (arith, lt_of_ltb (d.millis w) deadline e))
            (omega (arith, clock.after_reading w))))
    | inr e ↦ rw e ((w, []), refl, inr (refl, le_of_ltb (d.millis w) deadline e))
  ]

  time : ℕ → Option W → ℕ
  time n none = n
  time n (some w) = d.millis w

  after_flush-later :
      (rest : W → Option W) (r : W × List ℕ) (w' : W)
      → ((w : W) → rest w ≡ some w' → d.millis w ≤ d.millis w')
      → after_flush d rest r ≡ some w'
      → d.millis r.0 ≤ d.millis w'
  unfolding time
  after_flush-later rest (w, []) w' h e = omega (arith, ap (time 0) e)
  after_flush-later rest (w, b ∷ bs) w' h e = h w e

  flush-later : (fuel : ℕ) (w w' : W) → flush d fuel w ≡ some w' → d.millis w ≤ d.millis w'
  flush-later zero w w' e = absurd (cc)
  flush-later (suc fuel) w w' e = omega (
    arith,
    clock.after_reading w,
    after_flush-later (flush d fuel) (d.read w) w' (λ v. flush-later fuel v w') e,
  )

  -- `command` comes back, with an answer or after its time-out: on a device whose input is empty
  -- after at most `fuel` reads, where the clock does not go back and each `usleep(1000)` takes a
  -- millisecond, and with a round more than there are milliseconds in the time-out.
  pub command-IsTimely :
      (fuel op timeout : ℕ) (bs : List ℕ) (w w' : W)
      → timeout < fuel
      → flush d fuel w ≡ some w'
      → (r : W × List ℕ) × (command d fuel op bs timeout w ≡ some r)
        × IsTimely d (d.millis w + timeout) r
  unfolding command Comes
  command-IsTimely fuel op timeout bs w w' enough e = rw e (
      await-Comes fuel (d.millis w + timeout) (d.write (to_slip (to_packet op bs 0)) w')
        (omega arith)
        (omega
          (arith, flush-later fuel w w' e, clock.after_write (to_slip (to_packet op bs 0)) w')))

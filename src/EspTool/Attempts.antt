-- ===== src/EspTool/Attempts.antt =====
-- proxy/src/DtrRts.cpp: what `connect` takes for a connection.
use broker_proxy.Base.{
  ℕ, zero, suc, ◌+◌, ◌<◌, ◌≡◌, refl, ap, ◌∙◌, Bool, true, false, Option, none, some, List, [], ◌∷◌,
  ltb, Bool-cases, inl, inr, arith,
}
use mathlib.Core.Path.{subst}
use broker_proxy.EspTool.{
  Device, pause, after_flush, flush, after_read, await, command, commands, sync, pins,
  bootloader_reset, sync_loop, connect_attempt, connect_loop, connect, to_slip, to_packet,
  default_timeout, sync_timeout, esp_sync, sync_command, eio, default_attempts,
}
use broker_proxy.EspTool.Wait.{Clock, command-IsTimely}

module _ {W : Type 0} (d : Device W) (fuel : ℕ) where
  -- `sync` comes back from every state, and says yes.
  abbrev pub IsAnswered : Type 0
  IsAnswered = (w : W) → (w' : W) × (sync d fuel w ≡ some (w', true))

  Refuses : Option (W × Bool) → Type 0
  Refuses o = (w' : W) × (o ≡ some (w', false))

  sync_loop-answered :
      (n : ℕ) (w : W) → IsAnswered → (w' : W) × (sync_loop d fuel n w ≡ some (w', eio))
  sync_loop-answered zero w ok = (d.pin (pause 50000) w, refl)
  sync_loop-answered (suc n) w ok =
      rw (ok (d.fsync w)).1 (sync_loop-answered n (ok (d.fsync w)).0 ok)

  attempt-answered :
      (delay : Bool) (w : W)
      → IsAnswered
      → (w' : W) × (connect_attempt d fuel delay w ≡ some (w', eio))
  unfolding connect_attempt
  attempt-answered delay w ok = sync_loop-answered 5 (pins d (bootloader_reset delay) w) ok

  connect_loop-answered :
      (n : ℕ) (delay : Bool) (w : W) → IsAnswered → Refuses (connect_loop d fuel n delay w)
  unfolding Refuses
  connect_loop-answered zero delay w ok = (w, refl)
  connect_loop-answered (suc n) delay w ok =
      let first = attempt-answered delay w ok in
      let second = attempt-answered true first.0 ok in
      rw (first.1, second.1) (connect_loop-answered n true second.0 ok)

  -- To a device that answers every `sync`, `connect` returns false, after all its attempts.
  pub connect-refuses :
      (w : W)
      → ((w : W) → (w' : W) × (sync d fuel w ≡ some (w', true)))
      → (w' : W) × (connect d fuel w ≡ some (w', false))
  unfolding connect Refuses
  connect-refuses w ok = connect_loop-answered default_attempts false w ok

module _ {W : Type 0} (d : Device W) (clock : Clock d) (silent : (w : W) → (d.read w).1 ≡ []) where
  after_flush-silent :
      (rest : W → Option W) (r : W × List ℕ) → r.1 ≡ [] → after_flush d rest r ≡ some r.0
  after_flush-silent rest (w, []) e = refl
  after_flush-silent rest (w, b ∷ bs) e = absurd (cc)

  after_read-silent :
      (rest : W → Option (W × List ℕ)) (r : W × List ℕ)
      → r.1 ≡ []
      → after_read d rest r ≡ rest (d.sleep_ms r.0)
  after_read-silent rest (w, []) e = refl
  after_read-silent rest (w, b ∷ bs) e = absurd (cc)

  -- Nothing comes, if anything does.
  abbrev pub IsNothing : Option (W × List ℕ) → Type 0
  IsNothing none = Unit {0}
  IsNothing (some (w, bs)) = bs ≡ []

  await-IsNothing : (fuel deadline : ℕ) (w : W) → IsNothing (await d fuel deadline w)
  await-IsNothing zero deadline w = tt
  await-IsNothing (suc fuel) deadline w = elim (Bool-cases (ltb (d.millis w) deadline)) [
    | inl e ↦
        rw (e, after_read-silent (await d fuel deadline) (d.read w) (silent w))
          (await-IsNothing fuel deadline (d.sleep_ms (d.read w).0))
    | inr e ↦ rw e refl
  ]

  flush-silent : (fuel : ℕ) (w : W) → flush d (suc fuel) w ≡ some (d.read w).0
  flush-silent fuel w = after_flush-silent (flush d fuel) (d.read w) (silent w)

  command-IsNothing :
      (fuel op timeout : ℕ) (bs : List ℕ) (w w' : W)
      → flush d fuel w ≡ some w'
      → IsNothing (command d fuel op bs timeout w)
  unfolding command
  command-IsNothing fuel op timeout bs w w' e =
      rw e (await-IsNothing fuel (d.millis w + timeout) (d.write (to_slip (to_packet op bs 0)) w'))

  command-silent :
      (fuel op timeout : ℕ) (bs : List ℕ) (w : W)
      → timeout < fuel
      → (w' : W) × (command d fuel op bs timeout w ≡ some (w', []))
  command-silent zero op timeout bs w enough = absurd (omega arith)
  command-silent (suc k) op timeout bs w enough =
      let e = flush-silent k w in
      let came = command-IsTimely d clock (suc k) op timeout bs w (d.read w).0 enough e in
      let nothing = command-IsNothing (suc k) op timeout bs w (d.read w).0 e in
      (came.0.0, came.1 ∙ ap (λ t. some (came.0.0, t)) (subst IsNothing came.1 nothing))

  commands-silent :
      (fuel n : ℕ) (w : W) → default_timeout < fuel → (w' : W) × (commands d fuel n w ≡ some w')
  commands-silent fuel zero w enough = (w, refl)
  commands-silent fuel (suc n) w enough =
      let first = command-silent fuel 0 default_timeout [] w enough in
      rw first.1 (commands-silent fuel n first.0 enough)

  sync-silent :
      (fuel : ℕ) (w : W) → sync_timeout < fuel → (w' : W) × (sync d fuel w ≡ some (w', false))
  unfolding sync
  sync-silent fuel w enough =
      let first = command-silent fuel esp_sync sync_timeout sync_command w enough in
      let second = commands-silent fuel 7 first.0 (omega arith) in
      rw (first.1, second.1) (second.0, refl)

  -- To a device that never sends a byte `connect` returns, and returns true: with a clock that does
  -- not go back, and a round more for each loop than there are milliseconds in a time-out.
  pub connect-silent :
      (fuel : ℕ) (w : W) → 100 < fuel → (w' : W) × (connect d fuel w ≡ some (w', true))
  unfolding connect connect_attempt
  connect-silent fuel w enough =
      let first = sync-silent fuel (d.fsync (pins d (bootloader_reset false) w)) enough in
      rw first.1 (first.0, refl)

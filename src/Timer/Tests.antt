-- ===== src/Timer/Tests.antt =====
-- Runs of the timers, and their theorems at them.
use broker_proxy.Base.{ℕ, ◌+◌, ◌*◌, ◌≤◌, ◌≡◌, refl, true, false, some, List, [], ◌∷◌, arith}
use broker_proxy.Timer.{TimerSource, timer_source, turn}
use broker_proxy.Timer.Choice.{AreLater, IsAt}
use broker_proxy.Timer.Turn.{turn-due}
use broker_proxy.Timer.Rate.{requests, requests-rate}

-- A one-shot timer that was never started, and a repeating timer started at 1000.
abbrev timers : List TimerSource
timers = timer_source 1000 500 false ∷ timer_source 1000 100 true ∷ []

abbrev repeating : TimerSource
repeating = timer_source 1000 100 true

-- Calls late, twice in a millisecond, and in time.
abbrev reads : List (ℕ × ℕ)
reads = (1150, 1151) ∷ (1151, 1151) ∷ (1199, 1200) ∷ (1200, 1200) ∷ []

requests-rate_example : 1100 + (requests reads repeating).1 * 100 ≤ 1200 + 100
requests-rate_example =
    requests-rate 1200 reads repeating
      (
        (omega arith, omega arith),
        (
          (omega arith, omega arith),
          ((omega arith, omega arith), ((omega arith, omega arith), tt)),
        ),
      )
      (omega arith) (omega arith) refl

turn-due_example :
    (j e : ℕ) × ((turn 1150 false 1151 1151 timers).1 ≡ some j)
    × IsAt timers j e
    × AreLater e timers
turn-due_example =
    turn-due 1150 1151 1151 false timers 1 repeating refl (omega arith) (omega arith) (omega arith)
      (omega arith, (omega arith, tt))

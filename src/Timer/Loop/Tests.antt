-- ===== src/Timer/Loop/Tests.antt =====
-- Rounds of a thread whose queue is the ring of the Arduino build.
use broker_proxy.Base.{ℕ, ◌≡◌, refl, true, List, [], ◌∷◌, arith}
use broker_proxy.Queue.Ring.{Ring}
use broker_proxy.Queue.Ring.Refine.{IsValid, items}
use broker_proxy.Queue.Ring.Interface.{ring_fifo}
use broker_proxy.Timer.{TimerSource, timer_source, start}
use broker_proxy.Timer.Choice.{AreLater, IsAt}
use broker_proxy.Timer.Loop.{fired, ran, loop}
use broker_proxy.Timer.Loop.Serves.{loop-due, loop-work}

-- A repeating timer started at 1000 for every 100 milliseconds, and the work 8 and 9.
abbrev timers : List TimerSource
timers = timer_source 1000 100 true ∷ []

abbrev work : Ring ℕ
work = record { array = 9 ∷ 0 ∷ 0 ∷ 8 ∷ []; size = 4; read_ptr = 2; write_ptr = 0; overflow = 0 }

-- Work that starts the first timer again.
abbrev restarted : List TimerSource → List TimerSource
restarted [] = []
restarted (t ∷ ts) = start 1051 t ∷ ts

abbrev reset_first : ℕ → List TimerSource × Ring ℕ → List TimerSource × Ring ℕ
reset_first n (ts, q) = (restarted ts, q)

work-IsValid : IsValid work
work-IsValid = record { slots_fit = refl; read_in = omega arith; write_in = omega arith }

loop-due_example :
    (j e : ℕ) × ((loop ring_fifo reset_first 1150 1151 1152 1152 timers work).2 ≡ fired j)
    × ((loop ring_fifo reset_first 1150 1151 1152 1152 timers work).1 ≡ work)
    × IsAt timers j e
    × AreLater e timers
loop-due_example =
    loop-due ring_fifo reset_first 1150 1151 1152 1152 0 (timer_source 1000 100 true) timers work
      refl (omega arith) (omega arith) (omega arith) (omega arith) (omega arith, tt)

loop-work_example :
    (q' : Ring ℕ) × (items q' ≡ 9 ∷ [])
    × IsValid q'
    × (loop ring_fifo reset_first 1050 1051 1052 1052 timers work
        ≡ (let done = reset_first 8 (timers, q') in (done.0, done.1, ran 8)))
loop-work_example =
    loop-work ring_fifo reset_first 1050 1051 1052 1052 timers work 8 (9 ∷ []) (omega arith, tt)
      (omega arith) work-IsValid refl

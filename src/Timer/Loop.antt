-- ===== src/Timer/Loop.antt =====
-- arduino_client/src/limero.cpp, `Thread::loop`, with the timers of common/src/limero.h and a queue of
-- work. `now` and `later` are the clock at its head and at the test for an overdue timer, `at`
-- and `again` that in `request`. What work does when it is invoked, to the timers and to the queue,
-- is a parameter; what the handlers of a timer do is not part of a round. `expTime` does not wrap.
pub mod Serves
mod Tests
use broker_proxy.Base.{
  ℕ, ◌+◌, ◌≡◌, Bool, true, false, Option, none, some, List, [], ◌∷◌, ◌++◌, ltb, if◌then◌else◌,
  get_elem?,
}
use broker_proxy.Queue.Fifo.{Fifo}
use broker_proxy.Timer.{TimerSource, next_timer, request_at, must_wait}

-- `addTimer`
abbrev pub add_timer : TimerSource → List TimerSource → List TimerSource
add_timer t ts = ts ++ t ∷ []

-- What a round does.
pub data Served (A : Type 0) : Type 0 where
  idle : Served A
  ran : A → Served A
  fired : ℕ → Served A

-- `prq->invoke()` is a parameter: what the work does to the timers and to the queue.
module _ {A : Type 0} (fifo : Fifo A)
    (invoke : A → List TimerSource × fifo.State → List TimerSource × fifo.State) where
  -- `enqueue`, which returns 0 whether or not there is room.
  abbrev pub enqueue : A → fifo.State → fifo.State
  enqueue a q = (fifo.push a q).0

  abbrev pub worked :
      List TimerSource → fifo.State × Option A → List TimerSource × fifo.State × Served A
  worked ts (q, none) = (ts, q, idle)
  worked ts (q, some a) = let r = invoke a (ts, q) in (r.0, r.1, ran a)

  abbrev pub emitted :
      fifo.State → List TimerSource × Option ℕ → List TimerSource × fifo.State × Served A
  emitted q (ts, none) = (ts, q, idle)
  emitted q (ts, some i) = (ts, q, fired i)

  abbrev pub expires_before : ℕ → Option TimerSource → Bool
  expires_before later none = false
  expires_before later (some t) = ltb t.expire_time later

  -- `expiredTimer && expiredTimer->expireTime() < Sys::millis()`
  abbrev pub is_overdue : ℕ → Option ℕ → List TimerSource → Bool
  is_overdue later none ts = false
  is_overdue later (some i) ts = expires_before later (get_elem? ts i)

  unfoldable pub loop :
      ℕ → ℕ → ℕ → ℕ → List TimerSource → fifo.State → List TimerSource × fifo.State × Served A
  loop now later at again ts q =
      let (expired, exp_time) = next_timer now ts in
      if must_wait exp_time now
      then worked ts (fifo.pop q)
      else if is_overdue later expired ts
      then emitted q (request_at at again expired ts)
      else (ts, q, idle)

-- ===== src/Timer.antt =====
-- common/src/limero.h, `TimerSource`, and the loops that run timers: `Thread::run` of
-- linux/src/limero.cpp and `Thread::loop` of arduino_client/src/limero.cpp. Times are in
-- milliseconds, in 64 bits; an interval has 32 bits. The clock is a parameter: the time of each
-- call.
pub mod Choice
pub mod Turn
pub mod Loop
pub mod Rate
mod Tests
use broker_proxy.Base.{
  ℕ, ◌+◌, ◌-◌, ◌%◌, ◌^◌, ◌≤◌, ◌<◌, ◌≡◌, Bool, true, false, ◌&&◌, Option, none, some, List, [], ◌∷◌,
  ltb, leb, if◌then◌else◌, get_elem?, set,
}

-- `UINT32_MAX` and `UINT64_MAX`
abbrev pub uint32_max : ℕ
uint32_max = 2 ^ 32 - 1

abbrev pub uint64_max : ℕ
uint64_max = 2 ^ 64 - 1

pub record TimerSource : Type 0 where
  pub interval : ℕ
  pub is_repeat : Bool
  pub expire_time : ℕ

-- `setNewExpireTime`
abbrev pub set_new_expire_time : ℕ → TimerSource → TimerSource
set_new_expire_time now t =
    let next = (t.expire_time + t.interval) % 2 ^ 64 in
    record t {
      expire_time = if ltb next now && t.is_repeat then (now + t.interval) % 2 ^ 64 else next;
    }

-- `start`, `reset`, `start(interval)` and `stop`
abbrev pub start : ℕ → TimerSource → TimerSource
start now t = record t { expire_time = (now + t.interval) % 2 ^ 64 }

abbrev pub start_with : ℕ → ℕ → TimerSource → TimerSource
start_with now i t = start now (record t { interval = i })

abbrev pub stop : TimerSource → TimerSource
stop t = record t { expire_time = uint64_max }

-- The constructor: a repeating timer is started.
abbrev pub timer_source : ℕ → ℕ → Bool → TimerSource
timer_source now i r =
    let t : TimerSource = record { interval = i; is_repeat = r; expire_time = uint64_max } in
    if r then start now t else t

-- `request`: the timer, and whether it emits. The clock is read for the test, and again for the new
-- time.
unfoldable pub request : ℕ → ℕ → TimerSource → TimerSource × Bool
request now again t =
    if leb t.expire_time now
    then (
      if t.is_repeat
          then set_new_expire_time again t
          else record t { expire_time = (again + uint32_max) % 2 ^ 64 },
      true,
    )
    else (t, false)

-- The loop over `_timers` in `Thread::run`: the position and the time of the timer found so far.
abbrev pub find_expired : List TimerSource → ℕ → ℕ → Option ℕ → Option ℕ × ℕ
find_expired [] i exp_time expired = (expired, exp_time)
find_expired (t ∷ ts) i exp_time expired =
    if ltb t.expire_time exp_time
    then find_expired ts (i + 1) t.expire_time (some i)
    else find_expired ts (i + 1) exp_time expired

-- The timer to wait for, and until when: none within 5 seconds, or the one that expires next.
unfoldable pub next_timer : ℕ → List TimerSource → Option ℕ × ℕ
next_timer now ts = find_expired ts 0 (now + 5000) none

-- `request` on a timer of the list, and its position if it emits.
abbrev pub fire : ℕ → ℕ → ℕ → List TimerSource → Option TimerSource → List TimerSource × Option ℕ
fire now again i ts none = (ts, none)
fire now again i ts (some t) =
    let (t', emitted) = request now again t in (set ts i t', if emitted then some i else none)

abbrev pub request_at : ℕ → ℕ → Option ℕ → List TimerSource → List TimerSource × Option ℕ
request_at now again none ts = (ts, none)
request_at now again (some i) ts = fire now again i ts (get_elem? ts i)

-- `int32_t waitTime = (expTime - now); waitTime > 0`
abbrev pub must_wait : ℕ → ℕ → Bool
must_wait exp_time now =
    let wait_time = (exp_time + 2 ^ 64 - now) % 2 ^ 32 in ltb 0 wait_time && ltb wait_time (2 ^ 31)

-- The body of the loop of `Thread::run`, at the time `now`: the timers, and which of them emits.
-- `timed_out` is whether `waitInvoker` returns `ETIMEDOUT`, where it is called, and `later` and
-- `again` are the times at which `request` looks at the clock.
unfoldable pub turn : ℕ → Bool → ℕ → ℕ → List TimerSource → List TimerSource × Option ℕ
turn now timed_out later again ts =
    let (expired, exp_time) = next_timer now ts in
    if must_wait exp_time now
    then if timed_out then request_at later again expired ts else (ts, none)
    else request_at later again expired ts

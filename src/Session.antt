-- ===== src/Session.antt =====
-- proxy/src/SessionSerial.cpp, and the files that a thread waits for: addReadInvoker, addErrorInvoker,
-- deleteInvoker, buildFdSet and waitInvoker of linux/src/limero.cpp. A descriptor is a number or none,
-- for -1; the functions that are called for it are known by the descriptor. The answer of `select` is a
-- parameter.
pub mod Watch
mod Tests
use broker_proxy.Base.{
  ℕ, zero, suc, ◌+◌, ◌≡◌, Bool, true, false, not, Option, none, some, List, [], ◌∷◌, ◌++◌, ◌==◌,
  ltb, if◌then◌else◌,
}
use broker_proxy.Serial.{PortCalls, SerialPort, Outcome, ReadAnswer, rxd, connect, disconnect}

-- The members of `Thread` for its files: the keys of the two maps, and what `buildFdSet` makes of them.
pub record Watched : Type 0 where
  pub read_pipe : ℕ
  pub read_invokers : List ℕ
  pub error_invokers : List ℕ
  pub rfds : List ℕ
  pub efds : List ℕ
  pub max_fd : ℕ

abbrev pub largest : ℕ → List ℕ → ℕ
largest n [] = n
largest n (fd ∷ fds) = largest (if ltb n fd then fd else n) fds

abbrev pub build_fd_set : Watched → Watched
build_fd_set t = record t {
  rfds = t.read_pipe ∷ t.read_invokers;
  efds = t.read_pipe ∷ t.error_invokers;
  max_fd = largest (largest t.read_pipe t.read_invokers) t.error_invokers + 1;
}

abbrev pub has_fd : ℕ → List ℕ → Bool
has_fd fd [] = false
has_fd fd (f ∷ fds) = if f == fd then true else has_fd fd fds

-- `emplace`, which keeps an entry that is there, and `erase`
abbrev pub emplace : ℕ → List ℕ → List ℕ
emplace fd fds = if has_fd fd fds then fds else fds ++ fd ∷ []

abbrev pub erase : ℕ → List ℕ → List ℕ
erase fd [] = []
erase fd (f ∷ fds) = let rest = erase fd fds in if f == fd then rest else f ∷ rest

abbrev pub add_read_invoker : ℕ → Watched → Watched
add_read_invoker fd t = build_fd_set (record t { read_invokers = emplace fd t.read_invokers })

abbrev pub add_error_invoker : ℕ → Watched → Watched
add_error_invoker fd t = build_fd_set (record t { error_invokers = emplace fd t.error_invokers })

abbrev pub delete_invoker : ℕ → Watched → Watched
delete_invoker fd t = build_fd_set (record t {
  read_invokers = erase fd t.read_invokers;
  error_invokers = erase fd t.error_invokers;
})

-- What `select` answers: a failure, the descriptors that are ready, or nothing in time.
pub data Selected : Type 0 where
  select_failed : Selected
  ready : List ℕ → List ℕ → Selected
  nothing_ready : Selected

-- Whom `waitInvoker` calls, and what it returns.
pub data Invocation : Type 0 where
  invoke_work : Invocation
  invoke_read invoke_error : ℕ → Invocation

pub data Waited : Type 0 where
  wait_failed done pipe_error timed_out : Waited

abbrev pub ready_ones : (ℕ → Invocation) → List ℕ → List ℕ → List Invocation
ready_ones call set [] = []
ready_ones call set (fd ∷ fds) =
    let rest = ready_ones call set fds in if has_fd fd set then call fd ∷ rest else rest

-- The functions that are called must leave the two maps as they are.
abbrev pub wait_invoker : Selected → Watched → List Invocation × Waited
wait_invoker select_failed t = ([], wait_failed)
wait_invoker nothing_ready t = ([], timed_out)
wait_invoker (ready rs es) t = (
  (if has_fd t.read_pipe rs then invoke_work ∷ [] else [])
      ++ ready_ones invoke_read rs t.read_invokers
      ++ ready_ones invoke_error es t.error_invokers,
  if has_fd t.read_pipe es then pipe_error else done,
)

-- The session, with the files of its thread; `bad_fds` counts the calls for the descriptor -1, whose
-- effect on the sets of `select` is undefined.
pub record Session : Type 0 where
  pub serial : SerialPort
  pub thread : Watched
  pub bad_fds : ℕ

abbrev pub watch : Option ℕ → Session → Session
watch none s = record s { bad_fds = suc s.bad_fds }
watch (some fd) s = record s { thread = add_error_invoker fd (add_read_invoker fd s.thread) }

abbrev pub unwatch : Option ℕ → Session → Session
unwatch none s = record s { thread = build_fd_set s.thread }
unwatch (some fd) s = record s { thread = delete_invoker fd s.thread }

module _ {W : Type 0} (os : PortCalls W) where
  abbrev pub connected_with : Session → SerialPort × W × Outcome → Session × W
  connected_with s (port, w, o) = (watch port.fd (record s { serial = port }), w)

  -- `SessionSerial::connect`, which does not look at the result of the port.
  unfoldable pub connect_session : Session → W → Session × W
  connect_session s w = connected_with s (connect os s.serial w)

  abbrev pub disconnected_with : Session → SerialPort × W × Outcome → Session × W
  disconnected_with s (port, w, o) = (record s { serial = port }, w)

  -- `SessionSerial::disconnect` and `onError`
  unfoldable pub disconnect_session : (W → W × Bool) → Session → W → Session × W
  disconnect_session close_none s w =
      disconnected_with (unwatch s.serial.fd s) (disconnect os close_none s.serial w)

-- What `SessionSerial::invoke` hands to the flow of incoming bytes.
abbrev pub received_bytes : Option (List ℕ × ℕ) → Option (List ℕ)
received_bytes none = none
received_bytes (some ([], rc)) = none
received_bytes (some (b ∷ bs, zero)) = some (b ∷ bs)
received_bytes (some (b ∷ bs, suc e)) = none

unfoldable pub invoke_session : List ReadAnswer → Session → Option (List ℕ)
invoke_session answers s = received_bytes (rxd s.serial answers)

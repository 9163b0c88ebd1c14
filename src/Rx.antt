-- ===== src/Rx.antt =====
-- common/src/Frame.cpp and Frame.h: `BytesToFrame`, which cuts the bytes from a line into frames.
-- What it emits, and what it writes to its log, is a list of events. `Sys::millis` is not under
-- the library's control: `millis n` is what its n-th call returns, and the state counts the calls.
-- `none` is the undefined behaviour that `ppp_deframe` can meet.
pub mod View
pub mod Stream
pub mod Cut
mod Tests
use broker_proxy.Base.{
  ℕ, ◌+◌, ◌-◌, ◌%◌, ◌^◌, Bool, true, false, Option, none, some, List, [], ◌∷◌, ◌++◌, ◌==◌, ltb,
  if◌then◌else◌, length, ◌>>=◌,
}
use broker_proxy.Ppp.{flag_char, Deframed, returned, undefined, ppp_deframe}

pub data Event : Type 0 where
  -- `emit(_cleanData)`
  frame : List ℕ → Event
  -- `toStdout` of at least two bytes: `logs.on(bs)`
  log : List ℕ → Event

-- The fields of `BytesToFrame`, with the events so far.
pub record Receiver : Type 0 where
  pub input_frame : List ℕ
  pub clean_data : List ℕ
  pub last_frame_flag : ℕ
  pub calls : ℕ
  pub events : List Event

-- `_frameTimeout`
abbrev pub frame_timeout : ℕ
frame_timeout = 1000

-- `toStdout`
pub to_stdout : List ℕ → Receiver → Receiver
to_stdout bs r = if ltb 1 (length bs) then record r { events = r.events ++ log bs ∷ [] } else r

-- `handleFrame`, without its result, which no caller reads.
pub handle_frame : List ℕ → Receiver → Option Receiver
handle_frame bs r = if length bs == 0 then some r else (elim (ppp_deframe bs) [
  | returned true out ↦ some (record r { clean_data = out; events = r.events ++ frame out ∷ [] })
  | returned false out ↦ some (to_stdout bs (record r { clean_data = out }))
  | undefined ↦ none
])

module _ (millis : ℕ → ℕ) where
  -- One round of the loop of `handleRxd`.
  pub handle_byte : ℕ → Receiver → Option Receiver
  handle_byte b r =
      if b == flag_char
      then (handle_frame r.input_frame
            (record r { last_frame_flag = millis r.calls; calls = r.calls + 1 })
          >>= λ r'. some (record r' { input_frame = [] }))
      else some (record r { input_frame = r.input_frame ++ b ∷ [] })

  pub handle_bytes : List ℕ → Receiver → Option Receiver
  handle_bytes [] r = some r
  handle_bytes (b ∷ bs) r = handle_byte b r >>= handle_bytes bs

  -- `(Sys::millis() - _lastFrameFlag) > _frameTimeout`, in 64 bits.
  pub timed_out : Receiver → Bool
  timed_out r = ltb frame_timeout ((millis r.calls + 2 ^ 64 - r.last_frame_flag) % 2 ^ 64)

  -- The end of `handleRxd`.
  pub check_timeout : List ℕ → Receiver → Receiver
  check_timeout bs r =
      if timed_out r
      then record (to_stdout bs (record r { calls = r.calls + 1 })) { input_frame = [] }
      else record r { calls = r.calls + 1 }

  pub handle_rxd : List ℕ → Receiver → Option Receiver
  handle_rxd bs r = handle_bytes bs r >>= λ r'. some (check_timeout bs r')

  -- Chunks as they arrive, each a call of `handleRxd`.
  unfoldable pub handle_chunks : List (List ℕ) → Receiver → Option Receiver
  unfolding handle_rxd handle_bytes handle_byte handle_frame to_stdout check_timeout timed_out
  handle_chunks [] r = some r
  handle_chunks (c ∷ cs) r = handle_rxd c r >>= handle_chunks cs

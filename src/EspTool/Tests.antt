-- ===== src/EspTool/Tests.antt =====
-- A device that is silent, and the theorems of the boot loader there.
use broker_proxy.Base.{ℕ, suc, ◌≡◌, refl, true, some, List, [], ◌∷◌, arith}
use broker_proxy.EspTool.{Device, to_slip, to_packet, command, connect}
use broker_proxy.EspTool.Slip.{between, frames, to_slips, frames-to_slips}
use broker_proxy.EspTool.Wait.{Clock, IsTimely, command-IsTimely}
use broker_proxy.EspTool.Attempts.{connect-silent}

to_packet_two : to_packet 8 (1 ∷ 2 ∷ []) 0 ≡ 60 ∷ 66 ∷ 66 ∷ 72 ∷ 73 ∷ 0 ∷ 8 ∷ 2 ∷ 0 ∷ 1 ∷ 2 ∷ []
unfolding to_packet
to_packet_two = refl

to_slip_four : to_slip (1 ∷ 192 ∷ 219 ∷ []) ≡ 192 ∷ 1 ∷ 219 ∷ 220 ∷ 219 ∷ 221 ∷ 192 ∷ []
unfolding to_slip
to_slip_four = refl

-- The state is the clock.
abbrev mute : Device ℕ
mute = record {
  read = λ t. (t, []);
  write = λ bs t. t;
  millis = λ t. t;
  sleep_ms = λ t. suc t;
  fsync = λ t. t;
  pin = λ c t. t;
}

mute-Clock : Clock mute
mute-Clock = record {
  after_sleep = λ t. omega arith;
  after_reading = λ t. omega arith;
  after_write = λ bs t. omega arith;
}

command-IsTimely_example :
    (r : ℕ × List ℕ) × (command mute 5 8 (1 ∷ []) 3 0 ≡ some r) × IsTimely mute 3 r
command-IsTimely_example = command-IsTimely mute mute-Clock 5 8 3 (1 ∷ []) 0 0 (omega arith) refl

connect-silent_example : (t : ℕ) × (connect mute 101 0 ≡ some (t, true))
connect-silent_example = connect-silent mute mute-Clock (λ t. refl) 101 0 (omega arith)

frames-to_slips_example :
    frames between (to_slips ((192 ∷ []) ∷ [] ∷ (219 ∷ 1 ∷ []) ∷ []))
    ≡ some ((192 ∷ []) ∷ [] ∷ (219 ∷ 1 ∷ []) ∷ [])
frames-to_slips_example = frames-to_slips ((192 ∷ []) ∷ [] ∷ (219 ∷ 1 ∷ []) ∷ [])

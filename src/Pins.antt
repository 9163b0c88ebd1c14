-- ===== src/Pins.antt =====
-- arduino_client/src/Button.cpp and LedBlinker.cpp, on a pin. `on` of a button's flow and the start of
-- the timer are those of common/src/limero.h.
pub mod Changes
mod Tests
use broker_proxy.Base.{
  ℕ, zero, suc, ◌≡◌, Bool, true, false, not, List, [], ◌∷◌, ◌++◌, ◌==◌, if◌then◌else◌,
}
use broker_proxy.Timer.{TimerSource}

abbrev pub same_state : Bool → Bool → Bool
same_state true b = b
same_state false b = not b

-- `Button::newValue`: the state of the button, and the values that it hands on.
abbrev pub new_value : Bool → Bool → Bool × List Bool
new_value b last_state = if same_state b last_state then (last_state, []) else (b, b ∷ [])

-- `Button::isrButton` with what is read from the pin, once there is a button; a pin that is low is
-- a button that is pressed.
abbrev pub isr_button : ℕ → Bool → Bool × List Bool
isr_button level last_state = new_value (level == 0) last_state

abbrev pub isr_buttons : List ℕ → Bool → Bool × List Bool
isr_buttons [] b = (b, [])
isr_buttons (level ∷ levels) b =
    let r = isr_button level b in let rest = isr_buttons levels r.0 in (rest.0, r.1 ++ rest.1)

pub record LedBlinker : Type 0 where
  pub on : ℕ
  pub blink_timer : TimerSource

-- A tick of `blinkTimer`: the level that is written, and the blinker.
abbrev pub on_blink : LedBlinker → LedBlinker × ℕ
on_blink l = (record l { on = if l.on == 0 then 1 else 0 }, l.on)

-- `blinkTimer.interval(d)`, as `delay` and the handler of `blinkSlow` call it.
abbrev pub delay : ℕ → LedBlinker → LedBlinker
delay d l = record l { blink_timer = record l.blink_timer { interval = d } }

unfoldable pub on_blink_slow : Bool → LedBlinker → LedBlinker
on_blink_slow blink_slow l = if blink_slow then delay 500 l else delay 100 l

abbrev pub on_blinks : ℕ → LedBlinker → LedBlinker × List ℕ
on_blinks zero l = (l, [])
on_blinks (suc n) l = let r = on_blink l in let rest = on_blinks n r.0 in (rest.0, r.1 ∷ rest.1)

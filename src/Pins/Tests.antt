-- ===== src/Pins/Tests.antt =====
-- A button and a lamp.
use broker_proxy.Base.{ℕ, ◌≡◌, refl, true, false, List, [], ◌∷◌}
use broker_proxy.Timer.{timer_source}
use broker_proxy.Pins.{isr_buttons, LedBlinker, on_blinks, on_blink_slow}

abbrev levels : List ℕ
levels = 1 ∷ 0 ∷ 0 ∷ 1 ∷ []

abbrev blinker : LedBlinker
blinker = record { on = 0; blink_timer = timer_source 1000 100 true }

blinks : (on_blinks 3 (on_blink_slow true blinker)).1 ≡ 0 ∷ 1 ∷ 0 ∷ []
unfolding on_blink_slow
blinks = refl

presses : isr_buttons levels false ≡ (false, true ∷ false ∷ [])
presses = refl

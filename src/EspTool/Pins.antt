-- ===== src/EspTool/Pins.antt =====
-- proxy/src/DtrRts.cpp: how long the chip is in which mode while the lines are toggled.
use broker_proxy.Base.{ℕ, ◌+◌, ◌≡◌, refl, Bool, true, false, List, [], ◌∷◌, if◌then◌else◌}
use broker_proxy.Serial.{Line, dtr, rts}
use broker_proxy.EspTool.{
  PinCall, pause, set_bit, clr_bit, set_bits, prog_uc, run_uc, bootloader_reset,
}

-- The modes of the table in DtrRts.cpp, by TIOCM_DTR and TIOCM_RTS.
pub data ChipMode : Type 0 where
  in_reset prog_enable in_run : ChipMode

abbrev pub chip_mode : Bool → Bool → ChipMode
chip_mode false true = in_reset
chip_mode true false = prog_enable
chip_mode false false = in_run
chip_mode true true = in_run

-- The two bits, and the modes in which the chip was left for a while, with the time.
pub record Chip : Type 0 where
  pub dtr_bit : Bool
  pub rts_bit : Bool
  pub held : List (ChipMode × ℕ)

abbrev pub set_chip : Line → Bool → Chip → Chip
set_chip dtr level c = record c { dtr_bit = level }
set_chip rts level c = record c { rts_bit = level }

-- A pause in the mode of the last entry makes that one longer.
abbrev pub stay : ChipMode → ℕ → List (ChipMode × ℕ) → List (ChipMode × ℕ)
stay in_reset n ((in_reset, k) ∷ held) = (in_reset, k + n) ∷ held
stay prog_enable n ((prog_enable, k) ∷ held) = (prog_enable, k + n) ∷ held
stay in_run n ((in_run, k) ∷ held) = (in_run, k + n) ∷ held
stay m n held = (m, n) ∷ held

abbrev pub pin_effect : PinCall → Chip → Chip
pin_effect (pause n) c = record c { held = stay (chip_mode c.dtr_bit c.rts_bit) n c.held }
pin_effect (set_bit l) c = set_chip l true c
pin_effect (clr_bit l) c = set_chip l false c
pin_effect (set_bits d r) c = record c { dtr_bit = d; rts_bit = r }

abbrev pub pin_effects : List PinCall → Chip → Chip
pin_effects [] c = c
pin_effects (p ∷ ps) c = pin_effects ps (pin_effect p c)

abbrev pub chip_at : Bool → Bool → Chip
chip_at d r = record { dtr_bit = d; rts_bit = r; held = [] }

-- What a sequence of calls does to a chip from any lines: the modes in which it leaves it for a
-- while, the last first, with the microseconds, and the mode at the end.
abbrev pub Leaves : List PinCall → List (ChipMode × ℕ) → ChipMode → Type 0
Leaves calls held end =
    (d r : Bool)
    → ((pin_effects calls (chip_at d r)).held ≡ held)
      × (chip_mode (pin_effects calls (chip_at d r)).dtr_bit
            (pin_effects calls (chip_at d r)).rts_bit
          ≡ end)

-- From any lines: `bootloader_reset` and `progUc` keep the chip in reset for at least a tenth of a
-- second, then with the program pin low, which is how the boot loader starts, and leave it running;
-- `runUc` keeps it in reset, then lets it run.
pub bootloader_reset-Leaves :
    (delay : Bool)
    → Leaves
        (bootloader_reset delay)
        ((prog_enable, if delay then 450000 else 50000)
          ∷ (in_reset, if delay then 1300000 else 100000)
          ∷ [])
        in_run
      × Leaves
          (prog_uc delay)
          ((prog_enable, if delay then 90000 else 40000)
            ∷ (in_reset, if delay then 1300000 else 100000)
            ∷ [])
          in_run
      × Leaves run_uc ((in_run, 200000) ∷ (in_reset, 200000) ∷ []) in_run
unfolding bootloader_reset prog_uc run_uc
bootloader_reset-Leaves true = ((λ d r. (refl, refl)), (λ d r. (refl, refl)), (λ d r. (refl, refl)))
bootloader_reset-Leaves false =
    ((λ d r. (refl, refl)), (λ d r. (refl, refl)), (λ d r. (refl, refl)))

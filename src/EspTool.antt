-- ===== src/EspTool.antt =====
-- proxy/src/DtrRts.cpp: the boot loader's packets, the toggling of the DTR and RTS lines and the
-- retries of `connect`. The device behind the descriptor is a parameter. Loops that wait for it are
-- on fuel; log messages, `main` and `modeInfo`, which print, are left out.
pub mod Slip
pub mod Wait
pub mod Pins
pub mod Attempts
mod Tests
use broker_proxy.Base.{
  ℕ, zero, suc, ◌+◌, ◌%◌, ◌≡◌, Bool, true, false, Option, none, some, List, [], ◌∷◌, ◌++◌, ◌==◌,
  ltb, if◌then◌else◌, length, not, ◌>>=◌,
}
use broker_proxy.Serial.{Line, dtr, rts}

-- One byte in `toSlip`.
abbrev pub escape : ℕ → List ℕ
escape b = if b == 219 then 219 ∷ 221 ∷ [] else if b == 192 then 219 ∷ 220 ∷ [] else b ∷ []

abbrev pub escape_all : List ℕ → List ℕ
escape_all [] = []
escape_all (b ∷ bs) = escape b ++ escape_all bs

unfoldable pub to_slip : List ℕ → List ℕ
to_slip bs = 192 ∷ escape_all bs ++ 192 ∷ []

-- The first bytes are the characters of "<BBHI".
unfoldable pub to_packet : ℕ → List ℕ → ℕ → List ℕ
to_packet op bs chk = 60 ∷ 66 ∷ 66 ∷ 72 ∷ 73 ∷ 0 ∷ op ∷ (length bs % 256) ∷ chk ∷ bs

-- The calls on the lines, none of whose results is read, and the pauses in microseconds.
pub data PinCall : Type 0 where
  pause : ℕ → PinCall
  set_bit clr_bit : Line → PinCall
  set_bits : Bool → Bool → PinCall

abbrev pub set_dtr : PinCall
set_dtr = set_bit dtr

abbrev pub clr_dtr : PinCall
clr_dtr = clr_bit dtr

abbrev pub set_rts : PinCall
set_rts = set_bit rts

abbrev pub clr_rts : PinCall
clr_rts = clr_bit rts

abbrev pub reset_low : PinCall
reset_low = set_bits false true

abbrev pub prog_low : PinCall
prog_low = set_bits true false

abbrev pub all_high : PinCall
all_high = set_bits false false

-- `reset`, by whether DTR is set.
unfoldable pub reset : Bool → List PinCall
reset true = pause 1000000 ∷ clr_rts ∷ pause 1000000 ∷ set_rts ∷ []
reset false = pause 1000000 ∷ set_rts ∷ pause 1000000 ∷ clr_rts ∷ []

-- `if (esp32r0_delay) usleep(n)`
abbrev pub delay_by : Bool → ℕ → List PinCall
delay_by delay n = if delay then pause n ∷ [] else []

unfoldable pub prog_uc : Bool → List PinCall
prog_uc delay =
    clr_dtr ∷ set_rts ∷ pause 100000 ∷ delay_by delay 1200000
    ++ clr_rts ∷ set_dtr ∷ pause 40000 ∷ delay_by delay 50000
    ++ clr_dtr ∷ []

unfoldable pub run_uc : List PinCall
run_uc = clr_dtr ∷ set_rts ∷ pause 200000 ∷ clr_rts ∷ pause 200000 ∷ []

unfoldable pub bootloader_reset : Bool → List PinCall
bootloader_reset delay =
    clr_dtr ∷ set_rts ∷ pause 100000 ∷ delay_by delay 1200000
    ++ set_dtr ∷ clr_rts ∷ delay_by delay 400000
    ++ pause 50000 ∷ clr_dtr ∷ []

-- The device: `read` gives bytes, none of them also after a failure.
pub record Device (W : Type 0) : Type 0 where
  pub read : W → W × List ℕ
  pub write : List ℕ → W → W
  pub millis : W → ℕ
  pub sleep_ms : W → W
  pub fsync : W → W
  pub pin : PinCall → W → W

-- ESP_SYNC, SYNC_TIMEOUT_MS, DEFAULT_TIMEOUT, DEFAULT_CONNECT_ATTEMPTS and EIO
abbrev pub esp_sync : ℕ
esp_sync = 8

abbrev pub sync_timeout : ℕ
sync_timeout = 100

abbrev pub default_timeout : ℕ
default_timeout = 3

abbrev pub default_attempts : ℕ
default_attempts = 7

abbrev pub eio : ℕ
eio = 5

abbrev pub repeat_byte : ℕ → ℕ → List ℕ
repeat_byte zero b = []
repeat_byte (suc n) b = b ∷ repeat_byte n b

abbrev pub sync_command : List ℕ
sync_command = 7 ∷ 7 ∷ 18 ∷ 32 ∷ repeat_byte 32 85

-- `result.size() > 0 && result[0] != 0x80`
abbrev pub is_accepted : List ℕ → Bool
is_accepted [] = false
is_accepted (b ∷ bs) = not (b == 128)

module _ {W : Type 0} (d : Device W) where
  -- The loop that empties the input, after a read.
  abbrev pub after_flush : (W → Option W) → W × List ℕ → Option W
  after_flush rest (w, []) = some w
  after_flush rest (w, b ∷ bs) = rest w

  abbrev pub flush : ℕ → W → Option W
  flush zero w = none
  flush (suc fuel) w = after_flush (flush fuel) (d.read w)

  -- The loop that waits for an answer, after a read.
  abbrev pub after_read : (W → Option (W × List ℕ)) → W × List ℕ → Option (W × List ℕ)
  after_read rest (w, []) = rest (d.sleep_ms w)
  after_read rest (w, b ∷ bs) = some (w, b ∷ bs)

  abbrev pub await : ℕ → ℕ → W → Option (W × List ℕ)
  await zero deadline w = none
  await (suc fuel) deadline w =
      if ltb (d.millis w) deadline
      then after_read (await fuel deadline) (d.read w)
      else some (w, [])

  unfoldable pub command : ℕ → ℕ → List ℕ → ℕ → W → Option (W × List ℕ)
  command fuel op bs timeout w = flush fuel w >>= λ w'.
      await fuel (d.millis w + timeout) (d.write (to_slip (to_packet op bs 0)) w')

  -- `for (int i = 0; i < n; i++) command();`
  abbrev pub commands : ℕ → ℕ → W → Option W
  commands fuel zero w = some w
  commands fuel (suc n) w = command fuel 0 [] default_timeout w >>= λ r. commands fuel n r.0

  unfoldable pub sync : ℕ → W → Option (W × Bool)
  sync fuel w = command fuel esp_sync sync_command sync_timeout w >>= λ r.
      commands fuel 7 r.0 >>= λ w'. some (w', is_accepted r.1)

  abbrev pub pins : List PinCall → W → W
  pins [] w = w
  pins (c ∷ cs) w = pins cs (d.pin c w)

  -- `if (sync() == 0) return 0;`, and the rest of the loop.
  abbrev pub after_sync : (W → Option (W × ℕ)) → W × Bool → Option (W × ℕ)
  after_sync rest (w, true) = rest w
  after_sync rest (w, false) = some (w, 0)

  abbrev pub sync_loop : ℕ → ℕ → W → Option (W × ℕ)
  sync_loop fuel zero w = some (d.pin (pause 50000) w, eio)
  sync_loop fuel (suc n) w = sync fuel (d.fsync w) >>= after_sync (sync_loop fuel n)

  unfoldable pub connect_attempt : ℕ → Bool → W → Option (W × ℕ)
  connect_attempt fuel delay w = sync_loop fuel 5 (pins (bootloader_reset delay) w)

  -- `if (rc = connect_attempt(..) == 0) return true;`, and what follows.
  abbrev pub after_attempt : (W → Option (W × Bool)) → W × ℕ → Option (W × Bool)
  after_attempt rest (w, zero) = some (w, true)
  after_attempt rest (w, suc e) = rest w

  abbrev pub connect_loop : ℕ → ℕ → Bool → W → Option (W × Bool)
  connect_loop fuel zero delay w = some (w, false)
  connect_loop fuel (suc n) delay w =
      connect_attempt fuel delay w
      >>= after_attempt
          (λ w'. connect_attempt fuel true w' >>= after_attempt (connect_loop fuel n true))

  unfoldable pub connect : ℕ → W → Option (W × Bool)
  connect fuel w = connect_loop fuel default_attempts false w

-- ===== src/Serial/Port.antt =====
-- A port is connected exactly if `connect` succeeded, and has a descriptor exactly then.
use broker_proxy.Base.{ℕ, ◌≡◌, refl, Bool, true, false, Option, none, some}
use broker_proxy.Serial.{
  Termios, raw_mode, PortCalls, SerialPort, Outcome, succeeded, failed, after_set, after_speed,
  after_get, after_tty, after_open, connect,
}

-- How a call leaves a port that was not connected: open and connected after a success, and as it
-- was, without a descriptor, after a failure.
abbrev pub Matches : SerialPort → Outcome → Type 0
Matches s succeeded = (s.is_connected ≡ true) × ((n : ℕ) × (s.fd ≡ some n))
Matches s (failed e) = (s.is_connected ≡ false) × (s.fd ≡ none)

module _ {W : Type 0} (os : PortCalls W) where
  after_set-Matches :
      (fd : ℕ) (s : SerialPort) (r : W × Bool)
      → s.is_connected ≡ false
      → s.fd ≡ some fd
      → let (s', w, o) = after_set os fd s r in Matches s' o
  after_set-Matches fd s (w, true) off has = (refl, (fd, has))
  after_set-Matches fd s (w, false) off has = (off, refl)

  after_speed-Matches :
      (fd : ℕ) (s : SerialPort) (r : W × Option Termios)
      → s.is_connected ≡ false
      → s.fd ≡ some fd
      → let (s', w, o) = after_speed os fd s r in Matches s' o
  after_speed-Matches fd s (w, some t) off has =
      after_set-Matches fd s (os.tcsetattr fd t w) off has
  after_speed-Matches fd s (w, none) off has = (off, refl)

  after_get-Matches :
      (fd : ℕ) (s : SerialPort) (r : W × Option Termios)
      → s.is_connected ≡ false
      → s.fd ≡ some fd
      → let (s', w, o) = after_get os fd s r in Matches s' o
  after_get-Matches fd s (w, some t) off has =
      after_speed-Matches fd s (os.cfsetspeed (raw_mode t) s.baudrate w) off has
  after_get-Matches fd s (w, none) off has = (off, refl)

  after_tty-Matches :
      (fd : ℕ) (s : SerialPort) (r : W × Bool)
      → s.is_connected ≡ false
      → s.fd ≡ some fd
      → let (s', w, o) = after_tty os fd s r in Matches s' o
  after_tty-Matches fd s (w, true) off has = after_get-Matches fd s (os.tcgetattr fd w) off has
  after_tty-Matches fd s (w, false) off has = (off, refl)

  after_open-Matches :
      (s : SerialPort) (r : W × Option ℕ)
      → s.is_connected ≡ false
      → let (s', w, o) = after_open os s r in Matches s' o
  after_open-Matches s (w, some fd) off =
      after_tty-Matches fd (record s { fd = some fd }) (os.isatty fd w) off refl
  after_open-Matches s (w, none) off = (off, refl)

  -- `connect` of a port that is not connected: after a success it is connected and has a
  -- descriptor, and after a failure of any of the five calls it is not connected and has none.
  pub connect-Matches :
      (s : SerialPort) (w : W)
      → s.is_connected ≡ false
      → let (s', w', o) = connect os s w in Matches s' o
  unfolding connect
  connect-Matches s w off = after_open-Matches s (os.open_port s.port w) off

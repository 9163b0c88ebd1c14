-- ===== src/Serial/Tests.antt =====
-- A port on a system where every call succeeds, and the theorems of the serial port there.
use broker_proxy.Base.{ℕ, ◌+◌, ◌*◌, ◌≡◌, refl, true, false, some, [], ◌∷◌, arith}
use broker_proxy.Serial.{
  short_name, PortCalls, SerialPort, serial_port, Termios, connect, got, read_failed, rxd, wrote,
  write_later, write_failed, txd,
}
use broker_proxy.Serial.Port.{Matches, connect-Matches}
use broker_proxy.Serial.Transfer.{
  received, rxd-eq-received, IsPrefixSent, txd-IsPrefixSent, txd-done,
}
use broker_proxy.Serial.Lines.{run, reset, program, Board}

-- "/dev/ttyUSB0", "/dev/rfcomm0" and "COM1"
short_name_tty :
    short_name (47 ∷ 100 ∷ 101 ∷ 118 ∷ 47 ∷ 116 ∷ 116 ∷ 121 ∷ 85 ∷ 83 ∷ 66 ∷ 48 ∷ [])
    ≡ 85 ∷ 83 ∷ 66 ∷ 48 ∷ []
unfolding short_name
short_name_tty = refl

short_name_slash : short_name (47 ∷ 100 ∷ 47 ∷ 114 ∷ 48 ∷ []) ≡ 114 ∷ 48 ∷ []
unfolding short_name
short_name_slash = refl

short_name_plain : short_name (67 ∷ 79 ∷ 77 ∷ 49 ∷ []) ≡ 67 ∷ 79 ∷ 77 ∷ 49 ∷ []
unfolding short_name
short_name_plain = refl

-- A number for each rate.
abbrev symbol_of : ℕ → ℕ
symbol_of r = 3 * r

abbrev options : Termios
options = record { is_set = λ f. true; char_size = 7; speed = 0 }

-- The state counts the open descriptors; the seventh `open` fails.
abbrev system : PortCalls ℕ
system = record {
  open_port = λ name n. (n + 1, some (n + 3));
  close = λ fd n. (n, true);
  isatty = λ fd n. (n, true);
  tcgetattr = λ fd n. (n, some options);
  cfsetspeed = λ t speed n. (n, some (record t { speed = speed }));
  tcsetattr = λ fd t n. (n, false);
  errno = λ n. 5;
}

abbrev port : SerialPort
port = serial_port symbol_of

abbrev connected_port : SerialPort
connected_port = record port { fd = some 3; is_connected = true }

connect-Matches_example : let (s', w', o) = connect system port 0 in Matches s' o
connect-Matches_example = connect-Matches system port 0 refl

rxd-eq-received_example :
    rxd connected_port (got (1 ∷ 2 ∷ []) ∷ got (3 ∷ []) ∷ read_failed 5 ∷ [])
    ≡ received (got (1 ∷ 2 ∷ []) ∷ got (3 ∷ []) ∷ read_failed 5 ∷ [])
rxd-eq-received_example =
    rxd-eq-received connected_port (got (1 ∷ 2 ∷ []) ∷ got (3 ∷ []) ∷ read_failed 5 ∷ []) refl

txd-done_example :
    txd connected_port (1 ∷ 2 ∷ 3 ∷ []) (wrote 1 ∷ write_later ∷ wrote 1 ∷ wrote 1 ∷ [])
    ≡ some (1 ∷ 2 ∷ 3 ∷ [], 0)
txd-done_example =
    txd-done connected_port (1 ∷ 2 ∷ 3 ∷ []) (wrote 1 ∷ write_later ∷ wrote 1 ∷ wrote 1 ∷ []) refl
      (tt, (tt, (tt, (tt, tt)))) (omega arith)

txd-IsPrefixSent_example :
    IsPrefixSent
      (1 ∷ 2 ∷ 3 ∷ [])
      (txd connected_port (1 ∷ 2 ∷ 3 ∷ []) (wrote 2 ∷ write_failed 5 ∷ []))
txd-IsPrefixSent_example =
    txd-IsPrefixSent connected_port (1 ∷ 2 ∷ 3 ∷ []) (wrote 2 ∷ write_failed 5 ∷ []) refl
      (tt, (((λ e. absurd (omega arith)), tt), tt))

abbrev board : Board
board = record { dtr_line = false; rts_line = false; held = [] }

abbrev ran : Board
ran = record { dtr_line = true; rts_line = true; held = run ∷ reset ∷ run ∷ [] }

abbrev programmed : Board
programmed = record { dtr_line = false; rts_line = true; held = program ∷ reset ∷ run ∷ [] }

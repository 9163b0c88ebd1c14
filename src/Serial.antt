-- ===== src/Serial.antt =====
-- proxy/src/serial.cpp: the serial port of the proxy. The operating system is a parameter: its
-- calls on a state of the outside world for `connect` and `disconnect`, and the list of the
-- answers to `read` or `write` for the loops, which end with an answer of theirs; `none` is a loop
-- that has had all answers and goes on. Log messages and `tcdrain`, `fsync` and `tcflush`, whose
-- results nothing reads, are left out.
pub mod Baud
pub mod Port
pub mod Transfer
pub mod Lines
mod Tests
use broker_proxy.Base.{
  ℕ, zero, suc, ◌+◌, ◌-◌, ◌≡◌, Bool, true, false, Option, none, some, List, [], ◌∷◌, ◌++◌, ◌==◌,
  ltb, leb, if◌then◌else◌, length,
}
use broker_proxy.Split.{take, drop}

-- `BAUDRATE_TABLE`; the second column is the constant of the operating system for the rate.
abbrev pub baudrate_table : List ℕ
baudrate_table =
    50 ∷ 75 ∷ 110 ∷ 134 ∷ 150 ∷ 200 ∷ 300 ∷ 600 ∷ 1200 ∷ 1800 ∷ 2400 ∷ 4800 ∷ 9600 ∷ 19200 ∷ 38400
    ∷ 57600 ∷ 115200 ∷ 230400 ∷ 460800 ∷ 500000 ∷ 576000 ∷ 921600 ∷ 1000000 ∷ 1152000 ∷ 1500000
    ∷ 2000000 ∷ 2500000 ∷ 3000000 ∷ 3500000 ∷ 4000000 ∷ []

module _ (symbol_of : ℕ → ℕ) where
  -- The loops of `baudSymbol` and `baudToValue`.
  abbrev pub find_rate : ℕ → List ℕ → ℕ
  find_rate br [] = symbol_of 115200
  find_rate br (r ∷ rs) = if r == br then symbol_of r else find_rate br rs

  abbrev pub find_symbol : ℕ → List ℕ → ℕ
  find_symbol symbol [] = 0
  find_symbol symbol (r ∷ rs) = if symbol_of r == symbol then r else find_symbol symbol rs

  unfoldable pub baud_symbol : ℕ → ℕ
  baud_symbol br = find_rate br baudrate_table

  unfoldable pub baud_to_value : ℕ → ℕ
  baud_to_value symbol = find_symbol symbol baudrate_table

-- "/dev/tty"
abbrev pub tty_prefix : List ℕ
tty_prefix = 47 ∷ 100 ∷ 101 ∷ 118 ∷ 47 ∷ 116 ∷ 116 ∷ 121 ∷ []

-- `find(prefix) == 0`
abbrev pub starts_with : List ℕ → List ℕ → Bool
starts_with s [] = true
starts_with [] (p ∷ ps) = false
starts_with (c ∷ s) (p ∷ ps) = if c == p then starts_with s ps else false

-- `rfind('/')` and `substr` behind it: what follows the last slash, if there is one.
abbrev pub after_slash : List ℕ → Option (List ℕ)
after_slash [] = none
after_slash (c ∷ s) = elim (after_slash s) [
  | some t ↦ some t
  | none ↦ if c == 47 then some s else none
]

unfoldable pub short_name : List ℕ → List ℕ
short_name port =
    if starts_with port tty_prefix
    then drop 8 port
    else elim (after_slash port) [ none ↦ port | some t ↦ t ]

-- The flags of `termios`, the ones that `connect` names and the others, and the size of a
-- character.
pub data Flag : Type 0 where
  ignbrk brkint parmrk istrip inlcr igncr icrnl ixon : Flag
  opost onlcr ocrnl : Flag
  echo echonl icanon isig iexten echoke echoe echoctl : Flag
  parenb hupcl : Flag
  other_flag : ℕ → Flag

pub record Termios : Type 0 where
  pub is_set : Flag → Bool
  pub char_size : ℕ
  pub speed : ℕ

-- The flags that the masks of `connect` keep.
abbrev pub is_kept : Flag → Bool
is_kept (other_flag n) = true
is_kept f = false

-- The options that `connect` sets before the speed.
unfoldable pub raw_mode : Termios → Termios
raw_mode t = record t { is_set = λ f. if is_kept f then t.is_set f else false; char_size = 8 }

-- The calls of the operating system on a port. A descriptor or a set of options is there unless the
-- call failed; `errno` is the code of the last failure.
pub record PortCalls (W : Type 0) : Type 0 where
  pub open_port : List ℕ → W → W × Option ℕ
  pub close : ℕ → W → W × Bool
  pub isatty : ℕ → W → W × Bool
  pub tcgetattr : ℕ → W → W × Option Termios
  pub cfsetspeed : Termios → ℕ → W → W × Option Termios
  pub tcsetattr : ℕ → Termios → W → W × Bool
  pub errno : W → ℕ

-- The fields of `Serial`; `none` is the descriptor -1.
pub record SerialPort : Type 0 where
  pub port : List ℕ
  pub baudrate : ℕ
  pub fd : Option ℕ
  pub is_connected : Bool

-- The constructor.
abbrev pub serial_port : (ℕ → ℕ) → SerialPort
serial_port symbol_of = record {
  port = [];
  baudrate = symbol_of 115200;
  fd = none;
  is_connected = false;
}

-- `port(name)` and `baudrate(br)`, which take effect at the next `connect`, and `baudrate()`.
abbrev pub set_port : List ℕ → SerialPort → SerialPort
set_port name s = record s { port = name }

abbrev pub set_baudrate : (ℕ → ℕ) → ℕ → SerialPort → SerialPort
set_baudrate symbol_of br s = record s { baudrate = baud_symbol symbol_of br }

abbrev pub get_baudrate : (ℕ → ℕ) → SerialPort → ℕ
get_baudrate symbol_of s = baud_to_value symbol_of s.baudrate

-- What `connect` and `disconnect` return: 0, or the code of a failure.
pub data Outcome : Type 0 where
  succeeded : Outcome
  failed : ℕ → Outcome

module _ {W : Type 0} (os : PortCalls W) where
  -- An error after the descriptor is there: `close(_fd); _fd = -1; return errno;`
  abbrev pub give_up : ℕ → SerialPort → W → SerialPort × W × Outcome
  give_up fd s w = let w' = (os.close fd w).0 in (record s { fd = none }, w', failed (os.errno w'))

  -- `connect`, after each of its calls.
  abbrev pub after_set : ℕ → SerialPort → W × Bool → SerialPort × W × Outcome
  after_set fd s (w, true) = (record s { is_connected = true }, w, succeeded)
  after_set fd s (w, false) = give_up fd s w

  abbrev pub after_speed : ℕ → SerialPort → W × Option Termios → SerialPort × W × Outcome
  after_speed fd s (w, some t) = after_set fd s (os.tcsetattr fd t w)
  after_speed fd s (w, none) = give_up fd s w

  abbrev pub after_get : ℕ → SerialPort → W × Option Termios → SerialPort × W × Outcome
  after_get fd s (w, some t) = after_speed fd s (os.cfsetspeed (raw_mode t) s.baudrate w)
  after_get fd s (w, none) = give_up fd s w

  abbrev pub after_tty : ℕ → SerialPort → W × Bool → SerialPort × W × Outcome
  after_tty fd s (w, true) = after_get fd s (os.tcgetattr fd w)
  after_tty fd s (w, false) = give_up fd s w

  abbrev pub after_open : SerialPort → W × Option ℕ → SerialPort × W × Outcome
  after_open s (w, some fd) = after_tty fd (record s { fd = some fd }) (os.isatty fd w)
  after_open s (w, none) = (record s { fd = none }, w, failed (os.errno w))

  unfoldable pub connect : SerialPort → W → SerialPort × W × Outcome
  connect s w = after_open s (os.open_port s.port w)

  -- `disconnect`. To close the descriptor -1 is a failure of the call.
  abbrev pub closed : SerialPort → W × Bool → SerialPort × W × Outcome
  closed s (w, ok) = (
    record s { fd = none; is_connected = false },
    w,
    if ok then succeeded else failed (os.errno w),
  )

  unfoldable pub disconnect : (W → W × Bool) → SerialPort → W → SerialPort × W × Outcome
  disconnect close_none s w = closed s (elim s.fd [ none ↦ close_none w | some fd ↦ os.close fd w ])

-- ENOTCONN
abbrev pub enotconn : ℕ
enotconn = 107

-- An answer to `read`: bytes, none of them at the end of the input; nothing for now; a failure.
pub data ReadAnswer : Type 0 where
  got : List ℕ → ReadAnswer
  read_later : ReadAnswer
  read_failed : ℕ → ReadAnswer

-- The loop of `rxd`: what is in `out`, and the result.
abbrev pub rxd_loop : List ReadAnswer → List ℕ → Option (List ℕ × ℕ)
rxd_loop [] out = none
rxd_loop (got [] ∷ answers) out = some (out, 0)
rxd_loop (got (b ∷ bs) ∷ answers) out = rxd_loop answers (out ++ b ∷ bs)
rxd_loop (read_later ∷ answers) out = some (out, 0)
rxd_loop (read_failed e ∷ answers) out = some (out, e)

unfoldable pub rxd : SerialPort → List ReadAnswer → Option (List ℕ × ℕ)
rxd s answers = if s.is_connected then rxd_loop answers [] else some ([], enotconn)

-- An answer to `write`: how many bytes were taken; none for now; a failure.
pub data WriteAnswer : Type 0 where
  wrote : ℕ → WriteAnswer
  write_later : WriteAnswer
  write_failed : ℕ → WriteAnswer

-- The loop of `txd`, for the bytes from `buf` to the end: what the port has taken, and the result.
-- `write` takes no more than it is given.
abbrev pub txd_loop : List WriteAnswer → List ℕ → List ℕ → Option (List ℕ × ℕ)
txd_loop answers [] sent = some (sent, 0)
txd_loop [] (b ∷ bs) sent = none
txd_loop (wrote n ∷ answers) (b ∷ bs) sent =
    if n == length (b ∷ bs)
    then some (sent ++ b ∷ bs, 0)
    else txd_loop answers (drop n (b ∷ bs)) (sent ++ take n (b ∷ bs))
txd_loop (write_later ∷ answers) (b ∷ bs) sent = txd_loop answers (b ∷ bs) sent
txd_loop (write_failed e ∷ answers) (b ∷ bs) sent = some (sent, e)

unfoldable pub txd : SerialPort → List ℕ → List WriteAnswer → Option (List ℕ × ℕ)
txd s buffer answers = if s.is_connected then txd_loop answers buffer [] else some ([], enotconn)

-- The calls of `modeRun` and `modeProgram` on the modem lines.
pub data Line : Type 0 where
  dtr rts : Line

pub data LineCall : Type 0 where
  wait : ℕ → LineCall
  set_bit clr_bit : Line → LineCall

-- A chain of calls by `&&`: it ends at the first that fails.
abbrev pub and_then {ℓ} : {W : Type ℓ} → W × Bool → (W → W × Bool) → W × Bool
and_then (w, true) next = next w
and_then (w, false) next = (w, false)

abbrev pub all_calls {ℓ} : {W : Type ℓ} → (LineCall → W → W × Bool) → List LineCall → W → W × Bool
all_calls os [] w = (w, true)
all_calls os (c ∷ cs) w = and_then (os c w) (all_calls os cs)

abbrev pub run_calls : List LineCall
run_calls = wait 10 ∷ set_bit dtr ∷ clr_bit rts ∷ wait 10 ∷ set_bit rts ∷ set_bit dtr ∷ wait 10 ∷ []

abbrev pub program_calls : List LineCall
program_calls =
    wait 10 ∷ set_bit dtr ∷ clr_bit rts ∷ wait 10 ∷ set_bit rts ∷ clr_bit dtr ∷ wait 10 ∷ []

module _ {W : Type 0} (os : LineCall → W → W × Bool) where
  unfoldable pub mode_run : W → W × Bool
  mode_run w = all_calls os run_calls w

  unfoldable pub mode_program : W → W × Bool
  mode_program w = all_calls os program_calls w

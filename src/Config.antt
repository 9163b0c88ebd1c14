-- ===== src/Config.antt =====
-- loadConfig of proxy/src/serialProxy.cpp, brain/src/brain.cpp and redis2elastic/src/redis2elastic.cpp.
-- What getopt answers, call by call, is a list of letters with their arguments; `none` is abort.
pub mod Options
mod Tests
use broker_proxy.Base.{
  ℕ, ◌+◌, ◌%◌, ◌≡◌, Bool, Option, none, some, List, [], ◌∷◌, ◌==◌, if◌then◌else◌, ◌>>=◌,
}
use broker_proxy.Cbor.{ℤ, pos}
use broker_proxy.Text.{atoi}

pub record Config : Type 0 where
  pub serial_port : List ℕ
  pub baudrate : ℤ
  pub broker_host : List ℕ
  pub broker_port : ℤ

-- "/dev/ttyUSB0" and "localhost"
abbrev pub default_serial_port : List ℕ
default_serial_port = 47 ∷ 100 ∷ 101 ∷ 118 ∷ 47 ∷ 116 ∷ 116 ∷ 121 ∷ 85 ∷ 83 ∷ 66 ∷ 48 ∷ []

abbrev pub localhost : List ℕ
localhost = 108 ∷ 111 ∷ 99 ∷ 97 ∷ 108 ∷ 104 ∷ 111 ∷ 115 ∷ 116 ∷ []

abbrev pub defaults : Config
defaults = record {
  serial_port = default_serial_port;
  baudrate = pos 115200;
  broker_host = localhost;
  broker_port = pos 6379;
}

-- The loop over the answers of getopt, with what is done about one.
abbrev pub options_loop {ℓ} :
    {C : Type ℓ} → (ℕ → List ℕ → C → Option C) → List (ℕ × List ℕ) → C → Option C
options_loop set [] cfg = some cfg
options_loop set ((c, arg) ∷ answers) cfg = set c arg cfg >>= λ cfg'. options_loop set answers cfg'

-- "b", "s", "h", "p" and "?", which only prints.
abbrev pub set_option : ℕ → List ℕ → Config → Option Config
set_option c arg cfg =
    if c == 98
    then some (record cfg { baudrate = atoi arg })
    else if c == 115
    then some (record cfg { serial_port = arg })
    else if c == 104
    then some (record cfg { broker_host = arg })
    else if c == 112
    then some (record cfg { broker_port = atoi arg })
    else if c == 63
    then some cfg
    else none

unfoldable pub load_config : List (ℕ × List ℕ) → Option Config
load_config answers = options_loop set_option answers defaults

-- The options of redis2elastic: "e" and "f" are set for the index, and have no defaults here.
pub record IndexConfig : Type 0 where
  pub proxy : Config
  pub elastic_host : Option (List ℕ)
  pub elastic_port : Option ℤ

abbrev pub set_index_option : ℕ → List ℕ → IndexConfig → Option IndexConfig
set_index_option c arg cfg =
    if c == 101
    then some (record cfg { elastic_host = some arg })
    else if c == 102
    then some (record cfg { elastic_port = some (atoi arg) })
    else if c == 104
    then some (record cfg { proxy = record cfg.proxy { broker_host = arg } })
    else if c == 112
    then some (record cfg { proxy = record cfg.proxy { broker_port = atoi arg } })
    else if c == 63
    then some cfg
    else none

unfoldable pub load_index_config : List (ℕ × List ℕ) → Option IndexConfig
load_index_config answers =
    options_loop set_index_option answers
      (record { proxy = defaults; elastic_host = none; elastic_port = none })

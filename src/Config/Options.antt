-- ===== src/Config/Options.antt =====
-- loadConfig against the options that are given.
use broker_proxy.Base.{
  ℕ, ◌⊎◌, ◌≡◌, refl, ap, ◌∙◌, some, List, [], ◌∷◌, ◌==◌, if◌then◌else◌, ◌>>=◌, All, inl, inr,
}
use broker_proxy.Cbor.{ℤ}
use broker_proxy.Text.{atoi}
use broker_proxy.Config.{Config, defaults, options_loop, set_option, load_config}

-- The argument that an option is given last.
abbrev pub last_given : ℕ → List (ℕ × List ℕ) → List ℕ → List ℕ
last_given c [] old = old
last_given c ((k, arg) ∷ answers) old = last_given c answers (if k == c then arg else old)

-- The number of an option that is given last.
abbrev pub last_number : ℕ → List (ℕ × List ℕ) → ℤ → ℤ
last_number c [] old = old
last_number c ((k, arg) ∷ answers) old = last_number c answers (if k == c then atoi arg else old)

-- What getopt answers with the option string "h:p:s:b:".
abbrev pub IsAnswer : ℕ × List ℕ → Type 0
IsAnswer (c, arg) = (c ≡ 98) ⊎ ((c ≡ 115) ⊎ ((c ≡ 104) ⊎ ((c ≡ 112) ⊎ (c ≡ 63))))

-- The configuration with each option as it was given last, or as it was.
abbrev pub with_options : List (ℕ × List ℕ) → Config → Config
with_options answers cfg = record {
  serial_port = last_given 115 answers cfg.serial_port;
  baudrate = last_number 98 answers cfg.baudrate;
  broker_host = last_given 104 answers cfg.broker_host;
  broker_port = last_number 112 answers cfg.broker_port;
}

set_option-with_options :
    (c : ℕ) (arg : List ℕ) (cfg : Config)
    → IsAnswer (c, arg)
    → set_option c arg cfg ≡ some (with_options ((c, arg) ∷ []) cfg)
set_option-with_options c arg cfg (inl e) = rw e refl
set_option-with_options c arg cfg (inr (inl e)) = rw e refl
set_option-with_options c arg cfg (inr (inr (inl e))) = rw e refl
set_option-with_options c arg cfg (inr (inr (inr (inl e)))) = rw e refl
set_option-with_options c arg cfg (inr (inr (inr (inr e)))) = rw e refl

options_loop-with_options :
    (answers : List (ℕ × List ℕ)) (cfg : Config)
    → All IsAnswer answers
    → options_loop set_option answers cfg ≡ some (with_options answers cfg)
options_loop-with_options [] cfg h = refl
options_loop-with_options ((c, arg) ∷ answers) cfg h =
    ap (λ o. o >>= λ cfg'. options_loop set_option answers cfg')
      (set_option-with_options c arg cfg h.0)
    ∙ options_loop-with_options answers (with_options ((c, arg) ∷ []) cfg) h.1

-- For all that getopt can answer with its option string, a question mark for an unknown option
-- included, the configuration is read and not aborted: each of its four values is what its option was
-- given last, and the default where it was not given.
pub load_config-with_options :
    (answers : List (ℕ × List ℕ))
    → All IsAnswer answers
    → load_config answers ≡ some (with_options answers defaults)
unfolding load_config
load_config-with_options answers h = options_loop-with_options answers defaults h

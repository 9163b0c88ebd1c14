-- ===== src/Config/Tests.antt =====
-- The options "-b 9600 -h a -h b -x".
use broker_proxy.Base.{ℕ, ◌≡◌, refl, none, List, [], ◌∷◌}
use broker_proxy.Cbor.{pos}
use broker_proxy.Text.{atoi}
use broker_proxy.Config.{defaults, load_index_config}
use broker_proxy.Config.Options.{with_options}

abbrev answers : List (ℕ × List ℕ)
answers = (98, 57 ∷ 54 ∷ 48 ∷ 48 ∷ []) ∷ (104, 97 ∷ []) ∷ (104, 98 ∷ []) ∷ (63, []) ∷ []

options_read :
    with_options answers defaults ≡ record defaults { baudrate = pos 9600; broker_host = 98 ∷ [] }
unfolding atoi
options_read = refl

-- A letter that the option string does not have.
unknown_letter : load_index_config ((98, []) ∷ []) ≡ none
unfolding load_index_config
unknown_letter = refl

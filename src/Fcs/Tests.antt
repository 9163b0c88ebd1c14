-- ===== src/Fcs/Tests.antt =====
-- Runs of the checksum, and its theorems at concrete inputs.
use broker_proxy.Base.{ℕ, ◌≡◌, refl, List, [], ◌∷◌, arith}
use broker_proxy.Fcs.{fcs_init, fcs_result, fcs_of}
use broker_proxy.Fcs.Reference.{crc, fcs_of-eq-crc}

-- "123456789", for which CRC-16/X-25 is 0x906E.
abbrev digits_text : List ℕ
digits_text = 0x31 ∷ 0x32 ∷ 0x33 ∷ 0x34 ∷ 0x35 ∷ 0x36 ∷ 0x37 ∷ 0x38 ∷ 0x39 ∷ []

check_value : fcs_result (fcs_of digits_text fcs_init) ≡ 0x906E
unfolding fcs_of
check_value = refl

fcs_of-eq-crc_example : fcs_of digits_text fcs_init ≡ crc digits_text fcs_init
fcs_of-eq-crc_example = fcs_of-eq-crc digits_text fcs_init (omega arith)

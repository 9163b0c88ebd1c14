-- ===== src/Dump/Hex.antt =====
-- linux/src/logger.cpp: `hexDump` without a spacer can be read back.
use broker_proxy.Base.{
  ℕ, ◌+◌, ◌-◌, ◌*◌, ◌/◌, ◌%◌, ◌≡◌, refl, ap₂, true, List, [], ◌∷◌, ◌==◌, eq_of_==, ltb,
  if◌then◌else◌, get_or, IsBytes,
}
use broker_proxy.Base.{every_byte, every_byte_sound}
use broker_proxy.Dump.{hex_digits, hex_dump}

-- The value of a hexadecimal digit.
abbrev pub digit_value : ℕ → ℕ
digit_value c = if ltb c 58 then c - 48 else c - 55

abbrev pub read_hex : List ℕ → List ℕ
read_hex [] = []
read_hex (h ∷ []) = []
read_hex (h ∷ l ∷ rest) = (digit_value h * 16 + digit_value l) ∷ read_hex rest

abbrev pub read_digits : ℕ → ℕ
read_digits b =
    digit_value (get_or hex_digits (b / 16) 0) * 16 + digit_value (get_or hex_digits (b % 16) 0)

digits_back : every_byte (λ b. read_digits b == b) ≡ true
unfolding every_byte
digits_back = refl

-- What `hexDump` prints of bytes without a spacer are the hexadecimal digits of those bytes.
pub read_hex-hex_dump : (bs : List ℕ) → IsBytes bs → read_hex (hex_dump [] bs) ≡ bs
read_hex-hex_dump [] h = refl
read_hex-hex_dump (b ∷ bs) h =
    ap₂ (λ x xs. x ∷ xs)
      (eq_of_== (read_digits b) b (every_byte_sound (λ x. read_digits x == x) b digits_back h.0))
      (read_hex-hex_dump bs h.1)

-- ===== src/Fcs/Reference.antt =====
-- The table of ppp_frame.cpp against the definition of the checksum bit by bit: the CRC with the
-- polynomial x^16 + x^12 + x^5 + 1, lowest bit first (0x8408).
use broker_proxy.Base.{
  ℕ, zero, suc, ◌+◌, ◌*◌, ◌/◌, ◌%◌, ◌^◌, bit_xor, ◌≡◌, refl, ap, ap₂, sym, ◌∙◌, true, List, [], ◌∷◌,
  get_or, ◌==◌, if◌then◌else◌, arith, eq_of_==, IsByte, IsBytes, every_byte, every_byte_sound,
  bit_xor_step, bit_xor-lt, bit_xor_comm, bit_xor_assoc, bit_xor_disjoint, zero-bit_xor,
}
use native.Mathlib.Nat.{pow-suc}
use broker_proxy.Fcs.{fcs_table, fcs_write, fcs_of}

abbrev pub polynomial : ℕ
polynomial = 0x8408

-- One bit of the register: shift out the lowest bit, and add the polynomial if it was set.
pub crc_bit : ℕ → ℕ
crc_bit x = if x % 2 == 1 then bit_xor (x / 2) polynomial else x / 2

pub crc_bits : ℕ → ℕ → ℕ
crc_bits zero x = x
crc_bits (suc n) x = crc_bits n (crc_bit x)

-- A byte enters at the low end, and eight bits are shifted out.
pub crc_byte : ℕ → ℕ → ℕ
crc_byte fcs b = crc_bits 8 (bit_xor fcs b)

pub crc : List ℕ → ℕ → ℕ
crc [] fcs = fcs
crc (b ∷ bs) fcs = crc bs (crc_byte fcs b)

xor_swap : (a b c d : ℕ) → bit_xor (bit_xor a b) (bit_xor c d) ≡ bit_xor (bit_xor a c) (bit_xor b d)
xor_swap a b c d =
    bit_xor_assoc a b (bit_xor c d)
    ∙ ap (bit_xor a)
        (sym (bit_xor_assoc b c d) ∙ ap (λ t. bit_xor t d) (bit_xor_comm b c) ∙ bit_xor_assoc c b d)
    ∙ sym (bit_xor_assoc a c (bit_xor b d))

bit_xor-zero : (a : ℕ) → bit_xor a 0 ≡ a
bit_xor-zero a = bit_xor_comm a 0 ∙ zero-bit_xor a

-- The register is linear.
crc_bit-bit_xor : (a b : ℕ) → crc_bit (bit_xor a b) ≡ bit_xor (crc_bit a) (crc_bit b)
unfolding crc_bit
crc_bit-bit_xor a b = ground (
  arith,
  bit_xor_step a b,
  ap (λ t. bit_xor t polynomial) half,
  half,
  xor_swap (a / 2) polynomial (b / 2) polynomial,
  bit_xor-zero (bit_xor (a / 2) (b / 2)),
  bit_xor_assoc (a / 2) (b / 2) polynomial,
  xor_swap (a / 2) polynomial (b / 2) 0,
  bit_xor-zero (b / 2),
  bit_xor-zero polynomial,
)
  where
    half : bit_xor a b / 2 ≡ bit_xor (a / 2) (b / 2)
    half = omega (arith, bit_xor_step a b)

crc_bits-bit_xor : (n a b : ℕ) → crc_bits n (bit_xor a b) ≡ bit_xor (crc_bits n a) (crc_bits n b)
unfolding crc_bits
crc_bits-bit_xor zero a b = refl
crc_bits-bit_xor (suc n) a b =
    ap (crc_bits n) (crc_bit-bit_xor a b) ∙ crc_bits-bit_xor n (crc_bit a) (crc_bit b)

crc_bit_even : (x : ℕ) → crc_bit (2 * x) ≡ x
unfolding crc_bit
crc_bit_even x = ground arith

-- The table holds eight steps of the register for each byte.
table_is_crc : every_byte (λ b. get_or fcs_table b 0 == crc_bits 8 b) ≡ true
unfolding every_byte fcs_table crc_bits crc_bit
table_is_crc = refl

fcs_table_lem : (b : ℕ) → IsByte b → get_or fcs_table b 0 ≡ crc_bits 8 b
fcs_table_lem b h =
    eq_of_== _ _ (every_byte_sound (λ b. get_or fcs_table b 0 == crc_bits 8 b) b table_is_crc h)

crc_bits_shift : (n h : ℕ) → crc_bits n (h * 2 ^ n) ≡ h
unfolding crc_bits
crc_bits_shift zero h = omega arith
crc_bits_shift (suc n) h =
    ap (λ t. crc_bits n (crc_bit t)) double
    ∙ ap (crc_bits n) (crc_bit_even (h * 2 ^ n))
    ∙ crc_bits_shift n h
  where
    double : h * 2 ^ suc n ≡ 2 * (h * 2 ^ n)
    double = omega (arith, ap (λ t. h * t) (pow-suc 2 n))

xor_by_halves :
    (fcs b : ℕ) → bit_xor fcs b ≡ bit_xor (fcs / 2 ^ 8 * 2 ^ 8) (bit_xor (fcs % 2 ^ 8) b)
xor_by_halves fcs b =
    ap (λ t. bit_xor t b)
      (split ∙ sym (bit_xor_disjoint 8 (fcs / 2 ^ 8) (fcs % 2 ^ 8) (omega arith)))
    ∙ bit_xor_assoc (fcs / 2 ^ 8 * 2 ^ 8) (fcs % 2 ^ 8) b
  where
    split : fcs ≡ fcs / 2 ^ 8 * 2 ^ 8 + fcs % 2 ^ 8
    split = omega arith

-- For any register value and any byte, `Fcs::write` with its table is eight steps of the
-- bit-by-bit checksum.
pub fcs_write-eq-crc_byte : (fcs b : ℕ) → IsByte b → fcs_write fcs b ≡ crc_byte fcs b
unfolding fcs_write crc_byte
fcs_write-eq-crc_byte fcs b h =
    sym (
      ap₂ bit_xor (crc_bits_shift 8 (fcs / 2 ^ 8))
        (sym (fcs_table_lem (bit_xor (fcs % 2 ^ 8) b) low)))
    ∙ sym (crc_bits-bit_xor 8 (fcs / 2 ^ 8 * 2 ^ 8) (bit_xor (fcs % 2 ^ 8) b))
    ∙ ap (crc_bits 8) (sym (xor_by_halves fcs b))
  where
    low : IsByte (bit_xor (fcs % 2 ^ 8) b)
    low = bit_xor-lt 8 (fcs % 2 ^ 8) b (omega arith) h

-- The table-driven checksum of a sequence of bytes is the bit-by-bit CRC of the polynomial
-- x^16 + x^12 + x^5 + 1, lowest bit first, from any register value.
pub fcs_of-eq-crc : (bs : List ℕ) (fcs : ℕ) → IsBytes bs → fcs_of bs fcs ≡ crc bs fcs
unfolding fcs_of crc
fcs_of-eq-crc [] fcs h = refl
fcs_of-eq-crc (b ∷ bs) fcs h =
    ap (fcs_of bs) (fcs_write-eq-crc_byte fcs b h.0) ∙ fcs_of-eq-crc bs (crc_byte fcs b) h.1

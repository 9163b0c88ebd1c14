-- ===== src/Fcs/Residue.antt =====
-- The checksum of a payload followed by its complemented checksum is the same for all payloads.
use broker_proxy.Base.{
  ℕ, ◌-◌, ◌/◌, ◌%◌, ◌^◌, ◌<◌, bit_xor, ◌≡◌, refl, ap, ◌∙◌, true, List, [], ◌∷◌, ◌++◌, get_or, ◌==◌,
  arith, eq_of_==, ltb, lt_of_ltb, IsByte, IsBytes, every_byte, every_byte_sound, bit_xor-lt,
}
use broker_proxy.Fcs.{fcs_table, fcs_write, fcs_of, fcs_result}

-- The register after all: its complement is the 0x0F47 of `ppp_deframe`.
abbrev pub residue : ℕ
residue = 0xF0B8

table-lt_table : every_byte (λ b. ltb (get_or fcs_table b 0) (2 ^ 16)) ≡ true
unfolding every_byte fcs_table
table-lt_table = refl

table-lt : (b : ℕ) → IsByte b → get_or fcs_table b 0 < 2 ^ 16
table-lt b h =
    lt_of_ltb _ _ (every_byte_sound (λ b. ltb (get_or fcs_table b 0) (2 ^ 16)) b table-lt_table h)

-- The register stays a `uint16_t`.
pub fcs_write-lt : (fcs b : ℕ) → fcs < 2 ^ 16 → IsByte b → fcs_write fcs b < 2 ^ 16
unfolding fcs_write
fcs_write-lt fcs b h hb =
    bit_xor-lt 16 (fcs / 2 ^ 8) _ (omega arith)
      (table-lt (bit_xor (fcs % 2 ^ 8) b) (bit_xor-lt 8 (fcs % 2 ^ 8) b (omega arith) hb))

pub fcs_of-lt : (bs : List ℕ) (fcs : ℕ) → fcs < 2 ^ 16 → IsBytes bs → fcs_of bs fcs < 2 ^ 16
unfolding fcs_of
fcs_of-lt [] fcs h hb = h
fcs_of-lt (b ∷ bs) fcs h hb = fcs_of-lt bs (fcs_write fcs b) (fcs_write-lt fcs b h hb.0) hb.1

pub fcs_of-append : (xs ys : List ℕ) (fcs : ℕ) → fcs_of (xs ++ ys) fcs ≡ fcs_of ys (fcs_of xs fcs)
unfolding fcs_of
fcs_of-append [] ys fcs = refl
fcs_of-append (x ∷ xs) ys fcs = fcs_of-append xs ys (fcs_write fcs x)

-- The register once the low byte of the complement is written.
low_table : every_byte (λ l. bit_xor l (255 - l) == 255) ≡ true
unfolding every_byte
low_table = refl

high_table : every_byte (λ h. fcs_write (bit_xor h 0x0F78) (255 - h) == residue) ≡ true
unfolding every_byte fcs_write fcs_table
high_table = refl

write_low :
    (fcs : ℕ) → fcs < 2 ^ 16 → fcs_write fcs (fcs_result fcs % 2 ^ 8) ≡ bit_xor (fcs / 2 ^ 8) 0x0F78
unfolding fcs_write fcs_table
write_low fcs h = ap (λ t. bit_xor (fcs / 2 ^ 8) (get_or fcs_table t 0)) index
  where
    low : fcs_result fcs % 2 ^ 8 ≡ 255 - fcs % 2 ^ 8
    low = omega arith

    index : bit_xor (fcs % 2 ^ 8) (fcs_result fcs % 2 ^ 8) ≡ 255
    index =
        ap (bit_xor (fcs % 2 ^ 8)) low
        ∙ eq_of_== _ _ (
            every_byte_sound (λ l. bit_xor l (255 - l) == 255) (fcs % 2 ^ 8) low_table
              (omega arith))

-- A register followed by its own complement, low byte first, ends at the residue.
pub fcs_of-complement :
    (fcs : ℕ)
    → fcs < 2 ^ 16
    → fcs_of (fcs_result fcs % 2 ^ 8 ∷ fcs_result fcs / 2 ^ 8 ∷ []) fcs ≡ residue
unfolding fcs_of
fcs_of-complement fcs h =
    ap (λ t. fcs_write t (fcs_result fcs / 2 ^ 8)) (write_low fcs h)
    ∙ ap (fcs_write (bit_xor (fcs / 2 ^ 8) 0x0F78)) high
    ∙ eq_of_== _ _ (
        every_byte_sound (λ t. fcs_write (bit_xor t 0x0F78) (255 - t) == residue) (fcs / 2 ^ 8)
          high_table (omega arith))
  where
    high : fcs_result fcs / 2 ^ 8 ≡ 255 - fcs / 2 ^ 8
    high = omega arith

-- The two bytes that `ppp_frame` appends, low byte first.
abbrev pub trailer : ℕ → List ℕ
trailer fcs = fcs_result fcs % 2 ^ 8 ∷ fcs_result fcs / 2 ^ 8 ∷ []

-- Whatever the payload is, followed by its trailer it leaves the residue.
pub fcs_of-trailer :
    (bs : List ℕ) (fcs : ℕ)
    → fcs < 2 ^ 16
    → IsBytes bs
    → fcs_of (bs ++ trailer (fcs_of bs fcs)) fcs ≡ residue
fcs_of-trailer bs fcs h hb =
    fcs_of-append bs (trailer (fcs_of bs fcs)) fcs
    ∙ fcs_of-complement (fcs_of bs fcs) (fcs_of-lt bs fcs h hb)

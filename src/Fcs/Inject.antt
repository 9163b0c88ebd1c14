-- ===== src/Fcs/Inject.antt =====
-- No two states of the register, and no two bytes, are confused by a step of the checksum.
use broker_proxy.Base.{
  ℕ, ◌+◌, ◌/◌, ◌%◌, ◌^◌, ◌<◌, bit_xor, ◌≡◌, refl, ap, sym, ◌∙◌, true, List, [], ◌∷◌, get_or, ◌==◌,
  if◌then◌else◌, arith, eq_of_==, IsByte, IsBytes, every_byte, every_byte_sound, bit_xor-lt,
  bit_xor-div, zero-bit_xor, bit_xor_cancel_left, bit_xor_cancel_right,
}
use broker_proxy.Fcs.{fcs_table, fcs_write, fcs_of}
use broker_proxy.Fcs.Residue.{fcs_write-lt}

-- The first index, from `i` on, of an entry with the high byte `h`.
find_high : List ℕ → ℕ → ℕ → ℕ
find_high [] h i = i
find_high (t ∷ ts) h i = let rest = find_high ts h (i + 1) in if t / 2 ^ 8 == h then i else rest

-- The high bytes of the table are all distinct, so that an entry is found again by its own.
high_bytes : every_byte (λ b. find_high fcs_table (get_or fcs_table b 0 / 2 ^ 8) 0 == b) ≡ true
unfolding every_byte fcs_table find_high
high_bytes = refl

table_inject :
    (b c : ℕ)
    → IsByte b
    → IsByte c
    → get_or fcs_table b 0 / 2 ^ 8 ≡ get_or fcs_table c 0 / 2 ^ 8
    → b ≡ c
table_inject b c hb hc e = sym (found b hb) ∙ ap (λ t. find_high fcs_table t 0) e ∙ found c hc
  where
    found : (x : ℕ) → IsByte x → find_high fcs_table (get_or fcs_table x 0 / 2 ^ 8) 0 ≡ x
    found x h = eq_of_== _ _ (
        every_byte_sound (λ b. find_high fcs_table (get_or fcs_table b 0 / 2 ^ 8) 0 == b) x
          high_bytes h)

-- The index into the table
abbrev index : ℕ → ℕ → ℕ
index f b = bit_xor (f % 2 ^ 8) b

module _ (f b : ℕ) (hf : f < 2 ^ 16) (hb : IsByte b) where
  index-lt : IsByte (index f b)
  index-lt = bit_xor-lt 8 (f % 2 ^ 8) b (omega arith) hb

  -- The high byte of the new register is that of the table's entry.
  fcs_write_high : fcs_write f b / 2 ^ 8 ≡ get_or fcs_table (index f b) 0 / 2 ^ 8
  unfolding fcs_write
  fcs_write_high =
      bit_xor-div 8 (f / 2 ^ 8) (get_or fcs_table (index f b) 0)
      ∙ ap (λ t. bit_xor t (get_or fcs_table (index f b) 0 / 2 ^ 8)) gone
      ∙ zero-bit_xor (get_or fcs_table (index f b) 0 / 2 ^ 8)
    where
      gone : f / 2 ^ 8 / 2 ^ 8 ≡ 0
      gone = omega arith

-- Registers with the same high byte after a step had the same index into the table.
same_index :
    (f g b c : ℕ)
    → f < 2 ^ 16
    → g < 2 ^ 16
    → IsByte b
    → IsByte c
    → fcs_write f b / 2 ^ 8 ≡ fcs_write g c / 2 ^ 8
    → index f b ≡ index g c
same_index f g b c hf hg hb hc e =
    table_inject (index f b) (index g c) (index-lt f b hf hb) (index-lt g c hg hc)
      (sym (fcs_write_high f b hf hb) ∙ e ∙ fcs_write_high g c hg hc)

same_high :
    (f g b c : ℕ)
    → f < 2 ^ 16
    → g < 2 ^ 16
    → IsByte b
    → IsByte c
    → fcs_write f b ≡ fcs_write g c
    → f / 2 ^ 8 ≡ g / 2 ^ 8
unfolding fcs_write
same_high f g b c hf hg hb hc e =
    bit_xor_cancel_right (f / 2 ^ 8) (g / 2 ^ 8) (get_or fcs_table (index f b) 0)
      (e ∙ ap (λ t. bit_xor (g / 2 ^ 8) (get_or fcs_table t 0)) (sym same))
  where
    same : index f b ≡ index g c
    same = same_index f g b c hf hg hb hc (ap (λ t. t / 2 ^ 8) e)

-- For one byte, distinct registers stay distinct.
pub fcs_write_inject :
    (f g b : ℕ) → f < 2 ^ 16 → g < 2 ^ 16 → IsByte b → fcs_write f b ≡ fcs_write g b → f ≡ g
fcs_write_inject f g b hf hg hb e = omega (
  arith,
  same_high f g b b hf hg hb hb e,
  bit_xor_cancel_right (f % 2 ^ 8) (g % 2 ^ 8) b
      (same_index f g b b hf hg hb hb (ap (λ t. t / 2 ^ 8) e)),
)

-- From one register, two bytes lead to the same register only if they are the same two bytes.
pub fcs_write_pair_inject :
    (f b b' c c' : ℕ)
    → f < 2 ^ 16
    → IsByte b
    → IsByte b'
    → IsByte c
    → IsByte c'
    → fcs_write (fcs_write f b) b' ≡ fcs_write (fcs_write f c) c'
    → (b ≡ c) × (b' ≡ c')
fcs_write_pair_inject f b b' c c' hf hb hb' hc hc' e = (first, second)
  where
    f' : fcs_write f b < 2 ^ 16
    f' = fcs_write-lt f b hf hb

    g' : fcs_write f c < 2 ^ 16
    g' = fcs_write-lt f c hf hc

    first : b ≡ c
    first = bit_xor_cancel_left b c (f % 2 ^ 8) (
        same_index f f b c hf hf hb hc
          (same_high (fcs_write f b) (fcs_write f c) b' c' f' g' hb' hc' e))

    second : b' ≡ c'
    second = bit_xor_cancel_left b' c' (fcs_write f b % 2 ^ 8) (
        same_index (fcs_write f b) (fcs_write f c) b' c' f' g' hb' hc' (ap (λ t. t / 2 ^ 8) e)
        ∙ ap (λ t. index (fcs_write f t) c') (sym first))

-- Nor does a common rest of the bytes bring distinct registers together.
pub fcs_of_inject :
    (bs : List ℕ) (f g : ℕ)
    → f < 2 ^ 16
    → g < 2 ^ 16
    → IsBytes bs
    → fcs_of bs f ≡ fcs_of bs g
    → f ≡ g
unfolding fcs_of
fcs_of_inject [] f g hf hg hb e = e
fcs_of_inject (b ∷ bs) f g hf hg hb e = fcs_write_inject f g b hf hg hb.0 (
    fcs_of_inject bs (fcs_write f b) (fcs_write g b) (fcs_write-lt f b hf hb.0)
      (fcs_write-lt g b hg hb.0) hb.1 e)

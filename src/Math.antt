-- ===== src/Math.antt =====
-- arduino_client/src/math.cpp: `isnan` and `isinf` of the builds without them. A number is given by its
-- bits, as a natural number; `& 0x7fff...` is `%`, and a negative number has its highest bit set.
pub mod Fields
mod Tests
use broker_proxy.Base.{
  ℕ, zero, suc, ◌+◌, ◌-◌, ◌*◌, ◌/◌, ◌%◌, ◌^◌, ◌≡◌, Bool, true, false, not, ◌&&◌, ◌||◌, ◌==◌, leb,
  bit_xor, if◌then◌else◌,
}

-- All ones in the exponent, 0x7ff0000000000000 and 0x7f800000.
abbrev pub exponent64 : ℕ
exponent64 = 2047 * 2 ^ 52

abbrev pub exponent32 : ℕ
exponent32 = 255 * 2 ^ 23

-- `-x`, and whether `x >> (w - 1)` has ones, of `w` bits.
abbrev pub negated : ℕ → ℕ → ℕ
negated w x = (2 ^ w - x) % 2 ^ w

abbrev pub is_negative : ℕ → ℕ → Bool
is_negative w x = leb (2 ^ (w - 1)) x

-- `isnan(double)` and `isnan(float)`
unfoldable pub isnan64 : ℕ → Bool
isnan64 x =
    let hx = x % 2 ^ 63 in let hx' = (exponent64 + 2 ^ 64 - hx) % 2 ^ 64 in not (hx' / 2 ^ 63 == 0)

unfoldable pub isnan32 : ℕ → Bool
isnan32 x =
    let ix = x % 2 ^ 31 in let ix' = (exponent32 + 2 ^ 32 - ix) % 2 ^ 32 in not (ix' / 2 ^ 31 == 0)

-- `isinf(double)` and `isinf(float)`: `t |= -t` is negative if either is, and `ix >> 62` is not 0 if
-- one of the two highest bits is set.
unfoldable pub isinf64 : ℕ → Bool
isinf64 ix =
    let t = bit_xor (ix % 2 ^ 63) exponent64 in
    not (is_negative 64 t || is_negative 64 (negated 64 t)) && not (ix / 2 ^ 62 == 0)

unfoldable pub isinf32 : ℕ → Bool
isinf32 ix =
    let t = bit_xor (ix % 2 ^ 31) exponent32 in
    not (is_negative 32 t || is_negative 32 (negated 32 t)) && not (ix / 2 ^ 30 == 0)

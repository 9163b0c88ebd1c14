-- ===== src/Math/Tests.antt =====
-- Infinities and other numbers.
use broker_proxy.Base.{ℕ, ◌*◌, ◌/◌, ◌%◌, ◌^◌, ◌+◌, ◌≡◌, ◌≢◌, ◌↔◌, refl, true, arith}
use broker_proxy.Math.{exponent64, isnan64, isnan32, isinf64, isinf32}
use broker_proxy.Math.Fields.{isnan-isinf-fields}

-- Minus infinity as a double, and 1 as a float.
abbrev minus_infinity : ℕ
minus_infinity = 4095 * 2 ^ 52

abbrev one : ℕ
one = 127 * 2 ^ 23

isnan-isinf-fields_example :
    ((isnan64 minus_infinity ≡ true)
      ↔ ((minus_infinity / 2 ^ 52 % 2048 ≡ 2047) × (minus_infinity % 2 ^ 52 ≢ 0)))
    × ((isinf64 minus_infinity ≡ true)
        ↔ ((minus_infinity / 2 ^ 52 % 2048 ≡ 2047) × (minus_infinity % 2 ^ 52 ≡ 0)))
    × ((isnan32 one ≡ true) ↔ ((one / 2 ^ 23 % 256 ≡ 255) × (one % 2 ^ 23 ≢ 0)))
    × ((isinf32 one ≡ true) ↔ ((one / 2 ^ 23 % 256 ≡ 255) × (one % 2 ^ 23 ≡ 0)))
isnan-isinf-fields_example = isnan-isinf-fields minus_infinity one (omega arith) (omega arith)

infinities :
    (isinf64 minus_infinity ≡ true)
    × (isinf32 (255 * 2 ^ 23) ≡ true)
    × (isnan64 (exponent64 + 1) ≡ true)
unfolding isinf64 isinf32 isnan64
infinities = (refl, refl, refl)

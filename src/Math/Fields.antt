-- ===== src/Math/Fields.antt =====
-- arduino_client/src/math.cpp against the fields of a number in IEEE 754.
use broker_proxy.Base.{
  ℕ, ◌/◌, ◌%◌, ◌^◌, ◌<◌, ◌≡◌, ◌≢◌, ◌↔◌, ap, true, not, ◌&&◌, ◌||◌, ◌==◌, bit_xor, bit_xor-lt,
  bit_xor_cancel_right, arith,
}
use broker_proxy.Math.{
  exponent64, exponent32, negated, is_negative, isnan64, isnan32, isinf64, isinf32,
}

isnan64-fields :
    (x : ℕ) → x < 2 ^ 64 → (isnan64 x ≡ true) ↔ ((x / 2 ^ 52 % 2048 ≡ 2047) × (x % 2 ^ 52 ≢ 0))
unfolding isnan64
isnan64-fields x h = ((λ e. ground arith), (λ e. ground arith))

-- The test on `t` succeeds where it is 0 and the number is not small.
test64 :
    (t x : ℕ)
    → t < 2 ^ 63
    → ((not (is_negative 64 t || is_negative 64 (negated 64 t)) && not (x / 2 ^ 62 == 0)) ≡ true)
      ↔ ((t ≡ 0) × (x / 2 ^ 62 ≢ 0))
test64 t x h = ((λ e. ground arith), (λ e. ground arith))

same64 : (x : ℕ) → (bit_xor (x % 2 ^ 63) exponent64 ≡ 0) ↔ (x % 2 ^ 63 ≡ exponent64)
same64 x = (
  (λ e. bit_xor_cancel_right (x % 2 ^ 63) exponent64 exponent64 e),
  (λ e. ap (λ y. bit_xor y exponent64) e),
)

isinf64-fields :
    (x : ℕ) → x < 2 ^ 64 → (isinf64 x ≡ true) ↔ ((x / 2 ^ 52 % 2048 ≡ 2047) × (x % 2 ^ 52 ≡ 0))
unfolding isinf64
isinf64-fields x h =
    let test =
      test64 (bit_xor (x % 2 ^ 63) exponent64) x
        (bit_xor-lt 63 (x % 2 ^ 63) exponent64 (omega arith) (omega arith)) in
    (
      (λ e. let r = (same64 x).0 (test.0 e).0 in (omega (arith, r), omega (arith, r))),
      (λ e. test.1 ((same64 x).1 (omega (arith, e.0, e.1)), omega (arith, e.0, e.1))),
    )

isnan32-fields :
    (x : ℕ) → x < 2 ^ 32 → (isnan32 x ≡ true) ↔ ((x / 2 ^ 23 % 256 ≡ 255) × (x % 2 ^ 23 ≢ 0))
unfolding isnan32
isnan32-fields x h = ((λ e. ground arith), (λ e. ground arith))

-- The test on `t` succeeds where it is 0 and the number is not small.
test32 :
    (t x : ℕ)
    → t < 2 ^ 31
    → ((not (is_negative 32 t || is_negative 32 (negated 32 t)) && not (x / 2 ^ 30 == 0)) ≡ true)
      ↔ ((t ≡ 0) × (x / 2 ^ 30 ≢ 0))
test32 t x h = ((λ e. ground arith), (λ e. ground arith))

same32 : (x : ℕ) → (bit_xor (x % 2 ^ 31) exponent32 ≡ 0) ↔ (x % 2 ^ 31 ≡ exponent32)
same32 x = (
  (λ e. bit_xor_cancel_right (x % 2 ^ 31) exponent32 exponent32 e),
  (λ e. ap (λ y. bit_xor y exponent32) e),
)

isinf32-fields :
    (x : ℕ) → x < 2 ^ 32 → (isinf32 x ≡ true) ↔ ((x / 2 ^ 23 % 256 ≡ 255) × (x % 2 ^ 23 ≡ 0))
unfolding isinf32
isinf32-fields x h =
    let test =
      test32 (bit_xor (x % 2 ^ 31) exponent32) x
        (bit_xor-lt 31 (x % 2 ^ 31) exponent32 (omega arith) (omega arith)) in
    (
      (λ e. let r = (same32 x).0 (test.0 e).0 in (omega (arith, r), omega (arith, r))),
      (λ e. test.1 ((same32 x).1 (omega (arith, e.0, e.1)), omega (arith, e.0, e.1))),
    )

-- `isnan` and `isinf` of a double and of a float are those of IEEE 754: a number of 64 bits is no
-- number where its exponent, the bits 52 to 62, is all ones and the 52 bits below are not 0, and
-- infinite where they are 0, whatever its sign; and so for one of 32 bits with the bits 23 to 30.
pub isnan-isinf-fields :
    (x y : ℕ)
    → x < 2 ^ 64
    → y < 2 ^ 32
    → ((isnan64 x ≡ true) ↔ ((x / 2 ^ 52 % 2048 ≡ 2047) × (x % 2 ^ 52 ≢ 0)))
      × ((isinf64 x ≡ true) ↔ ((x / 2 ^ 52 % 2048 ≡ 2047) × (x % 2 ^ 52 ≡ 0)))
      × ((isnan32 y ≡ true) ↔ ((y / 2 ^ 23 % 256 ≡ 255) × (y % 2 ^ 23 ≢ 0)))
      × ((isinf32 y ≡ true) ↔ ((y / 2 ^ 23 % 256 ≡ 255) × (y % 2 ^ 23 ≡ 0)))
isnan-isinf-fields x y h k =
    (isnan64-fields x h, isinf64-fields x h, isnan32-fields y k, isinf32-fields y k)

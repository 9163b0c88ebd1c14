-- ===== src/Base/Xor.antt =====
-- Exclusive or at variables: the lowest digit, the range, and that it undoes itself.
use Prim.Native.Nat.{
  ℕ, zero, suc, ◌+◌, ◌*◌, ◌/◌, ◌%◌, ◌^◌, ◌≤◌, ◌<◌, bit_xor, digits, bit_xor-bitwise, differ,
}
use mathlib.Core.Path.{◌≡◌, refl, ◌∙◌, ap, ap₂, sym}
use native.Mathlib.Nat.{pow-suc, div-div-eq-div-mul}
use native.Mathlib.Omega.{arith}

abbrev xor_digits : ℕ → ℕ → ℕ → ℕ
xor_digits n a b = digits (λ b. b) differ n a b

-- Any count of digits that covers the first number gives the same result.
xor_digits_enough : (n m a b : ℕ) → a ≤ n → a ≤ m → xor_digits n a b ≡ xor_digits m a b
xor_digits_enough zero zero a b p q = refl
xor_digits_enough zero (suc m) zero b p q = refl
xor_digits_enough zero (suc m) (suc a) b p q = absurd (omega arith)
xor_digits_enough (suc n) zero zero b p q = refl
xor_digits_enough (suc n) zero (suc a) b p q = absurd (omega arith)
xor_digits_enough (suc n) (suc m) zero b p q = refl
xor_digits_enough (suc n) (suc m) (suc a) b p q =
    omega (arith, xor_digits_enough n m (suc a / 2) (b / 2) (omega arith) (omega arith))

differ_lem : (a b : ℕ) → a < 2 → b < 2 → differ a b ≡ (a + b) % 2
differ_lem zero zero p q = refl
differ_lem zero (suc zero) p q = refl
differ_lem (suc zero) zero p q = refl
differ_lem (suc zero) (suc zero) p q = refl
differ_lem zero (suc (suc b)) p q = absurd (omega arith)
differ_lem (suc zero) (suc (suc b)) p q = absurd (omega arith)
differ_lem (suc (suc a)) b p q = absurd (omega arith)

pub zero-bit_xor : (b : ℕ) → bit_xor 0 b ≡ b
zero-bit_xor b = bit_xor-bitwise 0 b

pub bit_xor_step : (a b : ℕ) → bit_xor a b ≡ bit_xor (a / 2) (b / 2) * 2 + (a + b) % 2
bit_xor_step zero b = omega (arith, zero-bit_xor b, zero-bit_xor (b / 2))
bit_xor_step (suc a) b = omega (
  arith,
  bit_xor-bitwise (suc a) b,
  bit_xor-bitwise (suc a / 2) (b / 2),
  xor_digits_enough a (suc a / 2) (suc a / 2) (b / 2) (omega arith) (omega arith),
  differ_lem (suc a % 2) (b % 2) (omega arith) (omega arith),
)

pub bit_xor-lt : (k a b : ℕ) → a < 2 ^ k → b < 2 ^ k → bit_xor a b < 2 ^ k
bit_xor-lt zero a b p q = omega (arith, bit_xor-lt_one a b p q)
  where
    bit_xor-lt_one : (a b : ℕ) → a < 2 ^ 0 → b < 2 ^ 0 → bit_xor a b < 1
    bit_xor-lt_one zero b p q = omega (arith, zero-bit_xor b)
    bit_xor-lt_one (suc a) b p q = absurd (omega arith)
bit_xor-lt (suc k) a b p q = omega (
  arith,
  pow-suc 2 k,
  bit_xor_step a b,
  bit_xor-lt k (a / 2) (b / 2) (omega (arith, pow-suc 2 k)) (omega (arith, pow-suc 2 k)),
)

bit_xor_undo_below : (n a b : ℕ) → a ≤ n → b ≤ n → bit_xor (bit_xor a b) b ≡ a
bit_xor_undo_below zero zero zero p q = refl
bit_xor_undo_below zero (suc a) b p q = absurd (omega arith)
bit_xor_undo_below zero zero (suc b) p q = absurd (omega arith)
bit_xor_undo_below (suc n) a b p q = omega (
  arith,
  bit_xor_step (bit_xor a b) b,
  bit_xor_step a b,
  ap (λ t. bit_xor t (b / 2)) half,
  bit_xor_undo_below n (a / 2) (b / 2) (omega arith) (omega arith),
)
  where
    half : bit_xor a b / 2 ≡ bit_xor (a / 2) (b / 2)
    half = omega (arith, bit_xor_step a b)

-- A second exclusive or with the same number undoes the first.
pub bit_xor_undo : (a b : ℕ) → bit_xor (bit_xor a b) b ≡ a
bit_xor_undo a b = bit_xor_undo_below (a + b) a b (omega arith) (omega arith)

bit_xor_comm_below : (n a b : ℕ) → a ≤ n → b ≤ n → bit_xor a b ≡ bit_xor b a
bit_xor_comm_below zero zero zero p q = refl
bit_xor_comm_below zero (suc a) b p q = absurd (omega arith)
bit_xor_comm_below zero zero (suc b) p q = absurd (omega arith)
bit_xor_comm_below (suc n) a b p q = omega (
  arith,
  bit_xor_step a b,
  bit_xor_step b a,
  bit_xor_comm_below n (a / 2) (b / 2) (omega arith) (omega arith),
)

pub bit_xor_comm : (a b : ℕ) → bit_xor a b ≡ bit_xor b a
bit_xor_comm a b = bit_xor_comm_below (a + b) a b (omega arith) (omega arith)

pub bit_xor_cancel_right : (a b c : ℕ) → bit_xor a c ≡ bit_xor b c → a ≡ b
bit_xor_cancel_right a b c e = sym (bit_xor_undo a c) ∙ ap (λ t. bit_xor t c) e ∙ bit_xor_undo b c

pub bit_xor_cancel_left : (a b c : ℕ) → bit_xor c a ≡ bit_xor c b → a ≡ b
bit_xor_cancel_left a b c e = bit_xor_cancel_right a b c (bit_xor_comm a c ∙ e ∙ bit_xor_comm c b)

div-two_pow_suc : (x k : ℕ) → x / 2 ^ suc k ≡ x / 2 / 2 ^ k
div-two_pow_suc x k =
    rw (div-div-eq-div-mul x 2 (2 ^ k)) (ap (λ t. x / t) (omega (arith, pow-suc 2 k)))

-- A shift distributes over exclusive or.
pub bit_xor-div : (k a b : ℕ) → bit_xor a b / 2 ^ k ≡ bit_xor (a / 2 ^ k) (b / 2 ^ k)
bit_xor-div zero a b = omega (arith, ap₂ bit_xor (div_one a) (div_one b))
  where
    div_one : (n : ℕ) → n / 1 ≡ n
    div_one n = omega arith
bit_xor-div (suc k) a b =
    rw (div-two_pow_suc (bit_xor a b) k, div-two_pow_suc a k, div-two_pow_suc b k)
      (ap (λ t. t / 2 ^ k) half ∙ bit_xor-div k (a / 2) (b / 2))
  where
    half : bit_xor a b / 2 ≡ bit_xor (a / 2) (b / 2)
    half = omega (arith, bit_xor_step a b)

bit_xor_assoc_below :
    (n a b c : ℕ) → a ≤ n → b ≤ n → c ≤ n → bit_xor (bit_xor a b) c ≡ bit_xor a (bit_xor b c)
bit_xor_assoc_below zero zero b c p q r =
    omega (arith, zero-bit_xor (bit_xor b c), ap (λ t. bit_xor t c) (zero-bit_xor b))
bit_xor_assoc_below zero (suc a) b c p q r = absurd (omega arith)
bit_xor_assoc_below (suc n) a b c p q r = omega (
  arith,
  bit_xor_step (bit_xor a b) c,
  bit_xor_step a (bit_xor b c),
  bit_xor_step a b,
  bit_xor_step b c,
  ap (λ t. bit_xor t (c / 2)) (half a b),
  ap (λ t. bit_xor (a / 2) t) (half b c),
  bit_xor_assoc_below n (a / 2) (b / 2) (c / 2) (omega arith) (omega arith) (omega arith),
)
  where
    half : (x y : ℕ) → bit_xor x y / 2 ≡ bit_xor (x / 2) (y / 2)
    half x y = omega (arith, bit_xor_step x y)

pub bit_xor_assoc : (a b c : ℕ) → bit_xor (bit_xor a b) c ≡ bit_xor a (bit_xor b c)
bit_xor_assoc a b c =
    bit_xor_assoc_below (a + b + c) a b c (omega arith) (omega arith) (omega arith)

-- Numbers with no digit in common add up.
pub bit_xor_disjoint : (k q r : ℕ) → r < 2 ^ k → bit_xor (q * 2 ^ k) r ≡ q * 2 ^ k + r
bit_xor_disjoint zero q r h =
    omega
      (arith, ap (λ t. bit_xor (q * 1) t) (zero_of h), bit_xor_comm (q * 1) 0, zero-bit_xor (q * 1))
  where
    zero_of : {x : ℕ} → x < 1 → x ≡ 0
    zero_of h = omega arith
bit_xor_disjoint (suc k) q r h = omega (
  arith,
  pow-suc 2 k,
  bit_xor_step (q * 2 ^ suc k) r,
  ap (λ t. bit_xor t (r / 2)) half,
  double,
  bit_xor_disjoint k q (r / 2) (omega (arith, pow-suc 2 k)),
)
  where
    double : q * 2 ^ suc k ≡ q * 2 ^ k * 2
    double = omega (arith, ap (λ t. q * t) (pow-suc 2 k))

    half : q * 2 ^ suc k / 2 ≡ q * 2 ^ k
    half = omega (arith, double)

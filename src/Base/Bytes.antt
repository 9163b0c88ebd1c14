-- ===== src/Base/Bytes.antt =====
-- Bytes: numbers below 256, with a decision of a Boolean fact about all of them by evaluation.
use Prim.Native.Nat.{ℕ, zero, suc, ◌<◌}
use mathlib.Core.Path.{◌≡◌}
use mathlib.Core.Bool.{Bool, true, ◌&&◌}
use mathlib.Core.List.{List}
use native.Mathlib.Omega.{arith}
use broker_proxy.Base.Lists.{All}

abbrev pub IsByte : ℕ → Type 0
IsByte b = b < 256

abbrev pub IsBytes : List ℕ → Type 0
IsBytes bs = All IsByte bs

-- Whether `p` holds of every number below `n`.
check_below : ℕ → (ℕ → Bool) → Bool
check_below zero p = true
check_below (suc n) p = check_below n p && p n

check_below_sound : (n x : ℕ) (p : ℕ → Bool) → x < n → check_below n p ≡ true → p x ≡ true
unfolding check_below
check_below_sound zero x p lt h = absurd (omega arith)
check_below_sound (suc n) x p lt h = ground (arith, check_below_sound n x p)

unfoldable pub every_byte : (ℕ → Bool) → Bool
unfolding check_below
every_byte p = check_below 256 p

-- A fact that evaluates to true at each byte holds at a byte that is a variable.
pub every_byte_sound : (p : ℕ → Bool) (x : ℕ) → every_byte p ≡ true → IsByte x → p x ≡ true
unfolding every_byte
every_byte_sound p x h lt = check_below_sound 256 x p lt h

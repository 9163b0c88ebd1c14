-- ===== src/Base.antt =====
-- The names that all modules share: the libraries' types and operators passed on, the Boolean tests
-- of the C++ code on machine numbers, lists measured by native numbers, and finite checks on bytes.
mod Tests
mod Lists
mod Bytes
mod Xor
mod Fallible
pub use Tests.*
pub use Lists.*
pub use Bytes.{IsByte, IsBytes, every_byte_sound}
unfoldable pub use Bytes.{every_byte}
pub use Xor.*
pub use Fallible.*
pub use Prim.Native.Nat.{ℕ, zero, suc, ◌+◌, ◌-◌, ◌*◌, ◌/◌, ◌%◌, ◌^◌, ◌≤◌, ◌<◌, bit_xor}
pub use mathlib.Core.Path.{◌≡◌, refl, sym, ap, ap₂, ◌∙◌}
pub use mathlib.Core.Logic.{◌≢◌, ◌↔◌, ◌⊎◌, inl, inr}
pub use mathlib.Core.Bool.{Bool, true, false, not, ◌&&◌, ◌||◌}
pub use mathlib.Core.Option.{Option, none, some}
pub use mathlib.Core.List.{List, [], ◌∷◌, ◌++◌, map, append_assoc, append-nil}
pub use native.Mathlib.Omega.{arith}

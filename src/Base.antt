-- ===== src/Base.antt =====
-- The names that the other modules share: the libraries', passed on, with tests on numbers, lists
-- indexed by them, 32-bit words and the laws of the bit operations.
mod Tests
mod Lists
mod Words
mod Ints
mod Bytes
pub mod Bits
pub use Tests.*
pub use Lists.*
pub use Words.*
pub use Ints.*
pub use Bytes.*
pub use Prim.Native.Nat.{ℕ, zero, suc, ◌+◌, ◌-◌, ◌*◌, ◌/◌, ◌%◌, ◌^◌, ◌≤◌, ◌<◌, min, bit_and, bit_or}
pub use mathlib.Core.Path.{◌≡◌, refl, sym, ap, ap₂, subst, ◌∙◌}
pub use mathlib.Core.Logic.{◌≢◌, ◌↔◌, ◌⊎◌, inl, inr}
pub use mathlib.Core.Bool.{Bool, true, false, not, ◌&&◌, ◌||◌}
pub use mathlib.Core.Option.{Option, none, some}
pub use mathlib.Core.List.{List, [], ◌∷◌, ◌++◌, map}
pub use native.Mathlib.Omega.{arith}

-- ===== src/Common.antt =====
-- The names that the other modules share: those of the libraries, passed on, Boolean tests and
-- lists over the native numbers, and the monad of code that can fail an assertion.
mod Tests
mod Lists
mod Fault
mod Store
mod Permutation
pub mod Bits
pub mod Masks
pub use Tests.*
pub use Lists.*
pub use Fault.*
pub use Store.*
pub use Permutation.*
pub use Prim.Native.Nat.{
  ℕ, zero, suc, ◌+◌, ◌-◌, ◌*◌, ◌/◌, ◌%◌, ◌^◌, ◌≤◌, ◌<◌, min, max, bit_and, bit_or, bit_xor,
}
pub use mathlib.Core.Path.{◌≡◌, refl, sym, ap, ap₂, subst, ◌∙◌, fun_ext}
pub use mathlib.Core.Logic.{◌≢◌, ◌↔◌, ◌⊎◌, inl, inr}
pub use mathlib.Core.Bool.{Bool, true, false, not, ◌&&◌, ◌||◌}
pub use mathlib.Core.Option.{Option, none, some}
pub use mathlib.Core.List.{List, [], ◌∷◌, ◌++◌, map, append-nil, append_assoc}
pub use native.Mathlib.Omega.{arith}

-- ===== src/Prelude.antt =====
-- The names that every other module shares: the libraries', passed on, and those of the children:
-- Boolean tests, lists over the native numbers, bits, and results of code that may raise.
mod Tests
mod Lists
mod Digits
mod Bits
mod Results
pub mod Effects
pub use Tests.*
pub use Lists.*
pub use Bits.*
unfoldable pub use Results.*
pub use Prim.Native.Nat.{
  ℕ, zero, suc, ◌+◌, ◌-◌, ◌*◌, ◌/◌, ◌%◌, ◌^◌, ◌≤◌, ◌<◌, min, max, bit_and, bit_or, bit_xor,
}
pub use Prim.Native.String.{String}
pub use mathlib.Core.Path.{◌≡◌, refl, subst, ap₂, sym, ap, ◌∙◌}
pub use mathlib.Core.Logic.{◌≢◌, ◌↔◌, ◌⊎◌, inl, inr}
pub use mathlib.Core.Bool.{Bool, true, false, not, ◌&&◌, ◌||◌}
pub use mathlib.Core.Option.{Option, none, some}
pub use mathlib.Core.List.{List, [], ◌∷◌, ◌++◌, map, append-nil, append_assoc}
pub use native.Mathlib.Omega.{arith}

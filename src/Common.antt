-- ===== src/Common.antt =====
-- The names that the other modules share: library names passed on, Boolean tests, lists and arrays
-- over the native numbers, and unsigned arithmetic.
mod Tests
mod Lists
mod Count
mod Words
mod Concat
pub use Tests.*
pub use Lists.*
pub use Count.*
pub use Words.*
pub use Concat.*
pub use Prim.Native.Nat.{ℕ, zero, suc, ◌+◌, ◌-◌, ◌*◌, ◌/◌, ◌%◌, ◌^◌, ◌≤◌, ◌<◌, min}
pub use mathlib.Core.Path.{◌≡◌, refl, sym, ap, ap₂, ◌∙◌, subst}
pub use mathlib.Core.Logic.{◌≢◌, ◌↔◌, ◌⊎◌, inl, inr}
pub use mathlib.Core.Bool.{Bool, true, false, ◌&&◌, ◌||◌, not}
pub use mathlib.Core.Option.{Option, none, some}
pub use mathlib.Core.List.{List, [], ◌∷◌, ◌++◌, map}
pub use native.Mathlib.Omega.{arith}

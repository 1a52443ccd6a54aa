-- ===== src/Base.antt =====
-- The names that every other module shares: library names passed on, the Boolean tests, lists
-- measured by native numbers, signed integers, byte strings, Go maps and sorting.
mod Tests
mod Lists
pub mod Comparable
pub mod Int
pub mod Float
pub mod Text
pub mod TextOrder
pub mod Dict
pub mod Sort
pub mod Outcome
pub use Tests.*
pub use Lists.*
pub use Prim.Native.Nat.{ℕ, zero, suc, ◌+◌, ◌-◌, ◌*◌, ◌/◌, ◌%◌, ◌^◌, ◌≤◌, ◌<◌, min}
pub use mathlib.Core.Path.{◌≡◌, refl, sym, ap, ◌∙◌}
pub use mathlib.Core.Logic.{◌≢◌, ◌↔◌, ◌⊎◌, inl, inr}
pub use mathlib.Core.Bool.{Bool, true, false, not, ◌&&◌, ◌||◌}
pub use mathlib.Core.Option.{Option, none, some}
pub use mathlib.Core.List.{List, [], ◌∷◌, ◌++◌, map}
pub use native.Mathlib.Omega.{arith}

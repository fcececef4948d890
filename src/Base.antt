-- ===== src/Base.antt =====
-- The names that the other modules share: library names passed on, equality tests, lists measured
-- by native numbers, the ordered maps that stand for `HashMap` and `IndexSet`, results of fallible
-- code, and signed integers.
mod Equality
mod Lists
mod Outcome
pub mod Map
pub mod IndexSet
pub mod Int
pub mod Text
pub mod Fallible
pub mod Store
pub use Equality.{Eq, ◌==◌, if◌then◌else◌, Bool-cases, Option-cases, if-holds}
unfoldable pub use Equality.{nat_eq, string_eq, option_eq}
unfoldable pub use Lists.*
unfoldable pub use Outcome.*
pub use Prim.Native.Nat.{ℕ, zero, suc, ◌+◌, ◌-◌, ◌*◌, ◌%◌, ◌^◌, ◌≤◌, ◌<◌, min, max}
pub use Prim.Native.String.{String}
pub use mathlib.Core.Path.{◌≡◌, refl, sym, ap, ◌∙◌, subst}
pub use mathlib.Core.Logic.{◌≢◌, ◌↔◌, ◌⊎◌, inl, inr, ite}
pub use mathlib.Core.Bool.{Bool, true, false, not, ◌&&◌, ◌||◌, cond}
pub use mathlib.Core.Option.{Option, none, some}
pub use mathlib.Core.List.{List, [], ◌∷◌, ◌++◌, map}
pub use native.Mathlib.Omega.{arith}

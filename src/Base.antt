-- ===== src/Base.antt =====
-- The names that every module shares: the libraries' and those of the children below, which hold
-- tests, equality by instances, lists over the native numbers and Go's byte strings.
mod Tests
mod Lists
mod Equality
mod Outcome
pub mod Chain
mod Dict
mod Texts
mod Int
pub use Tests.*
pub use Lists.*
pub use Equality.*
unfoldable pub use Equality.{bytes_beq}
pub use Outcome.*
pub use Texts.{codes}
pub use Int.{ℤ, pos, negsuc}
unfoldable pub use Int.{wrap64}
unfoldable pub use Dict.{lookup, without, insert}
pub use Dict.{lookup-without, lookup-insert}
pub use Prim.Native.Nat.{ℕ, zero, suc, ◌+◌, ◌-◌, ◌*◌, ◌/◌, ◌%◌, ◌^◌, ◌≤◌, ◌<◌}
pub use Prim.Native.String.{String}
pub use Prim.Native.Char.{code}
pub use mathlib.Core.Path.{◌≡◌, refl, sym, ap, ◌∙◌}
pub use mathlib.Core.Logic.{◌≢◌, ◌↔◌, ◌⊎◌, inl, inr}
pub use mathlib.Core.Bool.{Bool, true, false, not, ◌&&◌, ◌||◌}
pub use mathlib.Core.Option.{Option, none, some}
pub use mathlib.Core.List.{List, [], ◌∷◌, ◌++◌, map, reverse}
pub use native.Mathlib.Omega.{arith}

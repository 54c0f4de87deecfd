-- ===== src/Prelude.antt =====
-- The names that the modules share: those of the libraries, passed on, and those of its children:
-- Boolean tests and the conditional, lists measured by native numbers, signed integers, equality of
-- texts, JavaScript's maps with the counts of their keys, and its stable sort.
mod Tests
mod Lists
mod Int
mod Text
mod Maps
mod Counts
mod Sorts
mod Order
pub use Tests.*
pub use Lists.*
pub use Int.*
pub use Text.*
pub use Maps.*
pub use Counts.*
pub use Sorts.*
pub use Order.*
pub use Prim.Native.Nat.{ℕ, zero, suc, ◌+◌, ◌-◌, ◌*◌, ◌/◌, ◌%◌, ◌^◌, ◌≤◌, ◌<◌}
pub use Prim.Native.String.{String}
pub use mathlib.Core.Path.{◌≡◌, refl, sym, ap, ◌∙◌}
pub use mathlib.Core.Logic.{◌≢◌, ◌↔◌, ◌⊎◌, inl, inr}
pub use mathlib.Core.Bool.{Bool, true, false, not, ◌&&◌, ◌||◌}
pub use mathlib.Core.Option.{Option, none, some}
pub use mathlib.Core.List.{List, [], ◌∷◌, ◌++◌, map, Mem}
pub use native.Mathlib.Omega.{arith}

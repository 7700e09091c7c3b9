-- ===== src/Common.antt =====
-- The names that the other modules share: the libraries', passed on, and those of the children.
-- Go's `int`, `uint32` and `uint64` values are native numbers, its signed results are `ℤ`, and a Go
-- string is the list of its bytes.
mod Tests
mod Lists
mod Int
mod Text
mod Panic
mod Dict
pub use Tests.*
pub use Lists.*
pub use Int.*
pub use Text.*
unfoldable pub use Text.{bytes, str_eq, has_prefix, has_suffix, contains}
pub use Dict.*
unfoldable pub use Dict.{lookup, insert, remove}
pub use Panic.*
pub use Prim.Native.Nat.{ℕ, zero, suc, ◌+◌, ◌-◌, ◌*◌, ◌/◌, ◌%◌, ◌^◌, ◌≤◌, ◌<◌, min, max}
pub use Prim.Native.String.{String}
pub use mathlib.Core.Path.{◌≡◌, refl, sym, ap, ap₂, ◌∙◌, subst}
pub use mathlib.Core.Logic.{◌≢◌, ◌↔◌, ◌⊎◌, inl, inr}
pub use mathlib.Core.Bool.{Bool, true, false, not, ◌&&◌, ◌||◌}
pub use mathlib.Core.Option.{Option, none, some}
pub use mathlib.Core.List.{List, [], ◌∷◌, ◌++◌, map, append-nil, append_assoc}
pub use native.Mathlib.Omega.{arith}

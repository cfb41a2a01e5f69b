-- ===== src/Base.antt =====
-- The names that the components share: the libraries', passed on, and those of the children. It
-- models no file of the program; Base/Bytes and Base/Dict stand for Go's `string` and `map`.
mod Tests
mod Lists
mod Int
mod Bytes
mod Dict
mod Results
mod Sort
pub use Tests.*
pub use Lists.*
pub use Int.*
pub use Results.*
unfoldable pub use Bytes.*
unfoldable pub use Dict.*
unfoldable pub use Sort.*
pub use Prim.Native.Nat.{ℕ, zero, suc, ◌+◌, ◌-◌, ◌*◌, ◌/◌, ◌%◌, ◌≤◌, ◌<◌}
pub use Prim.Native.String.{String}
pub use mathlib.Core.Path.{◌≡◌, refl, sym, ap, subst, ◌∙◌}
pub use mathlib.Core.Logic.{◌≢◌, ◌↔◌, ◌⊎◌, inl, inr}
pub use mathlib.Core.Bool.{Bool, true, false, not, ◌&&◌, ◌||◌}
pub use mathlib.Core.Option.{Option, none, some}
pub use mathlib.Core.List.{
  List, [], ◌∷◌, ◌++◌, map, append-nil, append_assoc, reverse, reverse-reverse,
}
pub use native.Mathlib.Omega.{arith}

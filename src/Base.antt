-- ===== src/Base.antt =====
-- The names that the other modules share: the libraries', passed on, and those of the children.
mod Tests
mod Lists
mod Maps
mod Options
mod Sets
pub mod Int
pub mod Bytes
pub use Options.*
pub use Tests.*
pub use Lists.*
unfoldable pub use Sets.{contains, remove}
pub use Sets.{AreDistinct, contains-append, contains-remove, remove-AreDistinct, snoc-AreDistinct}
unfoldable pub use Maps.{get, delete, put}
pub use Maps.{
  Map, keys, values, IsFresh, HasUniqueKeys, get-delete, get-put, delete_fresh,
  delete-HasUniqueKeys, put-HasUniqueKeys, delete-perm, length-delete-le, map_laws,
}
pub use Prim.Native.Nat.{ℕ, zero, suc, ◌+◌, ◌-◌, ◌*◌, ◌/◌, ◌%◌, ◌^◌, ◌≤◌, ◌<◌, min, max}
pub use Prim.Native.String.{String}
pub use mathlib.Core.Path.{◌≡◌, refl, sym, ap, ◌∙◌, subst}
pub use mathlib.Core.Logic.{◌≢◌, ◌↔◌, ◌⊎◌, inl, inr}
pub use mathlib.Core.Bool.{Bool, true, false, not, ◌&&◌, ◌||◌}
pub use mathlib.Core.Option.{Option, none, some}
pub use text.Mathlib.TextEquality.{eq_iff}
pub use mathlib.Core.List.{List, [], ◌∷◌, ◌++◌, map, Perm}
pub use native.Mathlib.Omega.{arith}

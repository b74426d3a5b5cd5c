-- ===== src/Base.antt =====
-- The names that the other modules share: the libraries', passed on, and those of the children.
mod Tests
mod Lists
mod Tabulate
mod Maps
mod Draws
mod GoMaps
pub use Tests.*
pub use Lists.*
pub use Tabulate.*
unfoldable pub use Maps.{Map, keys, values, is_some, lookup, insert, delete, Distinct}
pub use Maps.{
  beq_refl, lookup-insert, lookup-delete, length-delete-le, insert_absent, insert-Distinct,
  delete-Distinct,
}
unfoldable pub use Draws.{random_of}
pub use Draws.{random_of-get_elem?}
unfoldable pub use GoMaps.{SameEntries}
pub use GoMaps.{Eq-IsSet, option_eq, count-values}
pub use Prim.Native.Nat.{ℕ, zero, suc, ◌+◌, ◌-◌, ◌*◌, ◌%◌, ◌^◌, ◌≤◌, ◌<◌, min, max}
pub use Prim.Native.String.{String}
pub use mathlib.Core.Path.{◌≡◌, refl, sym, ap, ap₂, subst, ◌∙◌}
pub use mathlib.Core.Logic.{◌≢◌, ◌↔◌, ◌⊎◌, inl, inr}
pub use mathlib.Core.Bool.{Bool, true, false, not, ◌&&◌, ◌||◌}
pub use mathlib.Core.Option.{Option, none, some}
pub use mathlib.Core.List.{List, [], ◌∷◌, ◌++◌, map, append_assoc}
pub use native.Mathlib.Omega.{arith}

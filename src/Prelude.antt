-- ===== src/Prelude.antt =====
-- The names that the other modules share: the libraries', passed on, and those of the children:
-- Boolean tests, lists cut by native numbers, Go strings and Go maps.
pub mod Tests
pub mod Lists
pub mod Strings
pub mod Sorting
pub mod Maps
pub mod Counts
pub mod Distinct
pub mod Keyed
pub use Tests.*
pub use Lists.*
unfoldable pub use Strings.{bytes_eq, bytes_lt}
pub use Strings.{
  Bytes, codes, bytes_eq_iff, bytes_eq_refl, bytes_lt_irrefl, bytes_lt_trans, bytes_lt_total,
}
unfoldable pub use Maps.{lookup, insert, remove}
pub use Maps.{
  Eq, Map, bytes_Eq, lookup-insert, lookup-remove, beq_refl, map_laws, Unique, insert-Unique,
  remove-Unique,
}
pub use Prim.Native.Nat.{ℕ, zero, suc, ◌+◌, ◌-◌, ◌*◌, ◌/◌, ◌%◌, ◌^◌, ◌≤◌, ◌<◌}
pub use mathlib.Core.Path.{◌≡◌, refl, sym, ap, ◌∙◌, subst}
pub use mathlib.Core.Logic.{◌≢◌, ◌↔◌, ◌⊎◌, inl, inr}
pub use mathlib.Core.Bool.{Bool, true, false, not, ◌&&◌, ◌||◌}
pub use mathlib.Core.Option.{Option, none, some}
pub use mathlib.Core.List.{List, [], ◌∷◌, ◌++◌, map, append-nil, append_assoc}
pub use native.Mathlib.Omega.{arith}
unfoldable pub use Sorting.{insert_sorted, sort}
pub use Sorting.{IsSorted, sort-perm, sort-IsSorted, All-sort, All-of-sort, length-sort, sort-nil}
unfoldable pub use Counts.{count_if}
pub use Counts.{count_if-append, count_if-sort, count_if_none}
pub use Distinct.{AllDistinct, append-AllDistinct}

-- ===== src/Base.antt =====
-- The names that every part shares: the library's, passed on, and those of the children.
mod Tests
mod Text
mod Dicts
mod Lists
pub mod Int
pub use Lists.*
pub use Tests.*
pub use Dicts.{
  Dict, IsDict, lookup-insert, contains-append, contains-keys, contains-difference,
  contains-sorted_set, difference-eq-nil, non_empty,
}
unfoldable pub use Dicts.{lookup, insert, keys, contains, difference, insert_sorted, sorted_set}
pub use Text.{is_empty, strip-strip}
unfoldable pub use Text.{strip, code_points, lower_is, upper_is}
pub use Prim.Native.Nat.{ℕ, zero, suc, ◌+◌, ◌-◌, ◌*◌, ◌/◌, ◌%◌, ◌^◌, ◌≤◌, ◌<◌}
pub use Prim.Native.String.{String, ◌++◌ as ◌++ₛ◌}
pub use mathlib.Core.Path.{◌≡◌, refl, sym, ap, ◌∙◌, subst}
pub use mathlib.Core.Logic.{◌≢◌, ◌↔◌, ◌⊎◌, inl, inr}
pub use mathlib.Core.Bool.{Bool, true, false, false≢true, not, ◌&&◌, ◌||◌}
pub use mathlib.Core.Option.{Option, none, some}
pub use mathlib.Core.List.{List, [], ◌∷◌, ◌++◌, map, append_assoc, append-nil}
pub use native.Mathlib.Omega.{arith}
pub use text.Mathlib.Text.{◌==◌}
pub use text.Mathlib.TextEquality.{eq_iff}
pub use text.Mathlib.TextPositions.{eq_refl}

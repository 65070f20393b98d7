-- ===== src/Prelude.antt =====
-- The names that the modules share: the libraries', passed on, and those of the children.
mod Tests
mod Lists
mod Maps
mod Sets
mod Integers
mod Texts
pub use Tests.*
pub use Lists.*
pub use Maps.{Dict, lookup-erase, lookup-insert, length-insert, length-erase}
unfoldable pub use Maps.{lookup, erase, insert}
unfoldable pub use Sets.{count, sorted_set}
pub use Texts.{is_ascii}
unfoldable pub use Texts.{compare_digest}
pub use Integers.{ℤ, pos, negsuc}
pub use Sets.{one_if, to_set, count-sorted_set}
pub use Prim.Native.Nat.{ℕ, zero, suc, ◌+◌, ◌-◌, ◌*◌, ◌/◌, ◌%◌, ◌≤◌, ◌<◌}
pub use Prim.Native.String.{String}
pub use mathlib.Core.Path.{◌≡◌, refl, sym, ap, subst, ◌∙◌}
pub use mathlib.Core.Logic.{◌≢◌, ◌↔◌, ◌⊎◌, inl, inr}
pub use mathlib.Core.Bool.{Bool, true, false, not, ◌&&◌, ◌||◌}
pub use mathlib.Core.Option.{Option, none, some}
pub use mathlib.Core.List.{List, [], ◌∷◌, ◌++◌, map}
pub use native.Mathlib.Omega.{arith}
pub use text.Mathlib.Text.{◌==◌ as str_eq}
pub use text.Mathlib.TextEquality.{eq_iff}
pub use text.Mathlib.TextPositions.{eq_refl}

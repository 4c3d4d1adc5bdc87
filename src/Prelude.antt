-- ===== src/Prelude.antt =====
-- The names that the other modules share: those of the libraries, passed on, and of four children.
mod Tests
mod Lists
pub mod Int
pub mod Results
pub mod Steps
pub mod Text
mod Maps
pub use Tests.*
pub use Maps.{Dict, keys, Distinct, lookup-insert, lookup-remove, has-insert, has-remove}
pub use Maps.{
  has-is_some, lookup-eq-none, lookup-eq-some, has_of_lookup, insert-Distinct, insert_self,
  remove-Distinct,
}
pub use Maps.{dict_laws}
unfoldable pub use Maps.{lookup, has, insert, remove}
pub use Lists.{Memᴰ-append_left, Memᴰ-append_right, Memᴰ-append_cases, Memᴰ-cons_cases}
pub use Lists.{elem_at, modify_at, elem_at-append_last, elem_at-append_left, elem_at-modify_at}
pub use Lists.{length, All, All-append, contains-append, contains-remove_first_ne}
unfoldable pub use Lists.{contains, remove_first}
pub use Prim.Native.Nat.{ℕ, zero, suc, ◌+◌, ◌-◌, ◌*◌, ◌/◌, ◌%◌, ◌≤◌, ◌<◌, max}
pub use Prim.Native.String.{String}
pub use mathlib.Core.Path.{◌≡◌, refl, sym, ap, ◌∙◌}
pub use mathlib.Core.Logic.{◌≢◌, ◌↔◌, ◌⊎◌, inl, inr}
pub use mathlib.Core.Bool.{Bool, true, false, not, ◌&&◌, ◌||◌}
pub use mathlib.Core.Option.{Option, none, some}
pub use mathlib.Core.List.{List, [], ◌∷◌, ◌++◌, map, Memᴰ, append-nil, append_assoc}
pub use native.Mathlib.Omega.{arith}
pub use text.Mathlib.Text.{◌==◌}
pub use text.Mathlib.TextEquality.{eq_iff}
pub use text.Mathlib.TextPositions.{eq_refl}

-- ===== src/Base.antt =====
-- The names that all modules share: the libraries', passed on, and those of the children.
mod Tests
mod Rows
mod Text
pub mod Int
pub use Tests.*
pub use Text.{append, trim_space-padded}
unfoldable pub use Text.{is_space, is_empty, is_blank, trim_space, to_upper}
unfoldable pub use Tests.{text_eq}
pub use Rows.{
  length, or_row, found_any, find_row-insert, find_row-update, find_row_test, filter_rows-append,
  filter_rows-none, find_row-narrower, has_row-none, has_row-some, update_rows-append,
  update_rows-none,
}
unfoldable pub use Rows.{find_row, filter_rows, has_row, update_rows}
pub use Prim.Native.Nat.{ℕ, zero, suc, ◌+◌, ◌-◌, ◌*◌, ◌/◌, ◌%◌, ◌^◌, ◌≤◌, ◌<◌, min, max}
pub use Prim.Native.String.{String}
pub use Prim.Native.Char.{Char}
pub use mathlib.Core.Path.{◌≡◌, refl, sym, ap, ◌∙◌, subst}
pub use mathlib.Core.Logic.{◌≢◌, ◌↔◌, ◌⊎◌, inl, inr}
pub use mathlib.Core.Bool.{Bool, true, false, not, ◌&&◌, ◌||◌}
pub use mathlib.Core.Option.{Option, none, some}
pub use mathlib.Core.List.{List, [], ◌∷◌, ◌++◌, map}
pub use native.Mathlib.Omega.{arith}

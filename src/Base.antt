-- ===== src/Base.antt =====
-- The names that the other modules share: the libraries', passed on, and those of the children.
mod Tests
mod Lists
mod Strings
mod Options
mod Members
pub mod Fields
pub mod Suffixes
pub mod Maps
pub mod Rows
pub mod Int
pub mod Results
pub mod Decimals
pub mod Unicode
pub use Tests.*
pub use Lists.*
pub use Options.*
pub use Members.*
pub use Prim.Native.Nat.{ℕ, zero, suc, ◌+◌, ◌-◌, ◌*◌, ◌/◌, ◌%◌, ◌≤◌, ◌<◌}
pub use Prim.Native.String.{String}
pub use mathlib.Core.Bool.{Bool, true, false, not, ◌&&◌, ◌||◌}
pub use mathlib.Core.List.{List, [], ◌∷◌, ◌++◌, map, append_assoc, append-nil}
pub use mathlib.Core.Logic.{◌≢◌, ◌↔◌, ◌⊎◌, inl, inr}
pub use mathlib.Core.Option.{Option, none, some}
pub use mathlib.Core.Path.{◌≡◌, refl, sym, ap, subst, ◌∙◌}
pub use native.Mathlib.Omega.{arith}
pub use Strings.{Bytes, codes, equal_iff, equal_refl, is}
unfoldable pub use Strings.{
  equal, is_empty, has_byte, member, cut_prefix, has_prefix, has_suffix, cut, cut_from, split,
  split_from, join, ascii_letter, ascii_digit, to_upper,
}

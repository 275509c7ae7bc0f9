-- ===== src/Prelude.antt =====
-- The names that the other modules share: the libraries', passed on, and those of the children.
mod Tests
mod Lists
mod Texts
mod Strings
mod Effects
mod Checks
pub use Tests.*
pub use Lists.*
unfoldable pub use Texts.{text_eq, drop_spaces, strip, contains}
pub use Texts.{Text, codes, is_space, text_eq_iff, text_eq_refl, contains-append}
unfoldable pub use Strings.{
  is_prefix, is_infix, drop_of, rstrip_of, split_from, join, after_last, unique_from, lines_from,
}
pub use Strings.{strip_of, word_or, split_words, unique, is_line_end, splitlines}
pub use Effects.*
pub use Checks.*
pub use Prim.Native.Nat.{ℕ, zero, suc, ◌+◌, ◌-◌, ◌*◌, ◌/◌, ◌%◌, ◌≤◌, ◌<◌, min, max}
pub use Prim.Native.String.{String}
pub use mathlib.Core.Path.{◌≡◌, refl, sym, ap, ◌∙◌, subst}
pub use mathlib.Core.Logic.{◌≢◌, ◌↔◌, ◌⊎◌, inl, inr}
pub use mathlib.Core.Bool.{Bool, true, false, not, ◌&&◌, ◌||◌}
pub use mathlib.Core.Option.{Option, none, some}
pub use mathlib.Core.List.{List, [], ◌∷◌, ◌++◌, map, reverse}
pub use native.Mathlib.Omega.{arith}

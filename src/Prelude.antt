-- ===== src/Prelude.antt =====
-- The names that the other modules share: the libraries', passed on, and those of the children.
pub mod Tests
pub mod Lists
pub mod Texts
pub mod Dicts
pub mod Int
pub mod Numerals
pub mod Split
pub mod Removals
pub mod Parse
pub use Tests.*
pub use Lists.{
  length, take, drop, get_elem?, All, All-append, All-keep_if, All-drop, length-append,
  take-append-drop, length-take, length-drop, length-keep_if-le, count_if-le,
}
unfoldable pub use Lists.{keep_if, count_if}
pub use Texts.{Text, codes, text_eq_refl, text_eq_sound, text_eq_iff}
unfoldable pub use Texts.{text_eq, strip, lstrip, rstrip, is_space, is_among, starts_with}
pub use Int.{ℤ, pos, negsuc}
unfoldable pub use Numerals.{show_nat, show_int}
pub use Numerals.{value_from, show_nat-inj, value_from-show_nat, IsDigits, show_nat-IsDigits}
unfoldable pub use Split.{
  split_on, cons_head, partition, rpartition, flush, words_from, words, is_break, splitlines,
  contains, ends_with, any_of,
}
pub use Split.{
  IsFree, split_first, split_last, split_on-append, split_on_free, partition-append,
  words_from-append, splitlines-any_of, splitlines_line,
}
pub use Prim.Native.Nat.{ℕ, zero, suc, ◌+◌, ◌-◌, ◌*◌, ◌/◌, ◌%◌, ◌^◌, ◌≤◌, ◌<◌, min, max}
pub use mathlib.Core.Path.{◌≡◌, refl, sym, ap, ◌∙◌, subst}
pub use mathlib.Core.Logic.{◌≢◌, ◌↔◌, ◌⊎◌, inl, inr}
pub use mathlib.Core.Bool.{Bool, true, false, not, ◌&&◌, ◌||◌}
pub use mathlib.Core.Option.{Option, none, some}
pub use mathlib.Core.List.{List, [], ◌∷◌, ◌++◌, map, append_assoc, append-nil}
pub use native.Mathlib.Omega.{arith}
unfoldable pub use Dicts.{get, has_key, put, remove, values}
pub use Dicts.{
  Dict, IsDict, get-put, get-remove, get_of_has_key, has_key-get, get-has_key, has_key-put,
  has_key-remove_ne, length-put, length-put-le, length-remove, put-IsDict, remove-IsDict,
}
pub use Dicts.{All-get, All-imp, All-put, All-remove, entries-get, has_key-remove, remove-put_new}
unfoldable pub use Removals.{remove_all}
pub use Removals.{
  All-take, All-remove_all, take-IsDict, remove_all-IsDict, IsIn, IsIn-remove, length-remove_all,
  get-remove_all,
}
unfoldable pub use Parse.{parse_int}
pub use Parse.{parse_int-show_nat, length-show_nat}

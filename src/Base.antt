-- ===== src/Base.antt =====
-- The names that the other modules share: the libraries', passed on, and those of the children.
mod Tests
mod Lists
mod Strings
mod Errors
mod Int
mod Sorting
mod Digits
mod Sorted
mod Decimal
pub use Tests.*
pub use Lists.*
unfoldable pub use Tests.{nat_eq, text_eq, list_dec, option_eq, option_dec}
pub use Strings.*
unfoldable pub use Strings.{
  trim_space, is_space, to_lower, has_prefix, has_suffix, replace_all, contains_text, less,
}
pub use Errors.*
pub use Int.*
pub use Sorting.*
pub use Sorted.*
pub use Decimal.*
pub use Digits.{atoi, number}
unfoldable pub use Digits.{atoi}
unfoldable pub use Sorting.{sort_by, insert_by}
unfoldable pub use Strings.{
  split, decimal, trim_right, trim_left, trim, fold, equal_fold, trim_prefix, trim_left_space,
  trim_right_space,
}
pub use Prim.Native.Nat.{ℕ, zero, suc, ◌+◌, ◌-◌, ◌≤◌, ◌<◌}
pub use Prim.Native.String.{String}
pub use mathlib.Core.Path.{◌≡◌, refl, sym, subst, ap, ◌∙◌, fun_ext}
pub use mathlib.Core.Logic.{◌≢◌, ◌↔◌, ◌⊎◌, inl, inr}
pub use mathlib.Core.Bool.{Bool, true, false, not, ◌&&◌, ◌||◌}
pub use mathlib.Core.Option.{Option, none, some}
pub use mathlib.Core.List.{List, [], ◌∷◌, ◌++◌, map}
pub use native.Mathlib.Omega.{arith}

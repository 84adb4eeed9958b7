-- ===== src/Prelude.antt =====
-- The names that the other modules share: the libraries' and those of the children, passed on.
mod Tests
mod Lists
pub mod Text
pub mod Map
pub mod Decimal
mod Int
pub use Tests.*
pub use Lists.*
pub use Int.*
unfoldable pub use Text.{
  Str, codes, lit, same_str, str_eq, has_prefix, cut_prefix, strip_last, trim_suffix, trim_left,
  trim_right, trim, is_space, trim_space, onto_first, split, join, to_upper, to_lower, upper, lower,
  cut, str_lt, insert_by, sort_by, sort_strings,
}
pub use Text.{same_str_refl, same_str_iff}
pub use Prim.Native.Nat.{ℕ, zero, suc, ◌+◌, ◌-◌, ◌*◌, ◌/◌, ◌%◌, ◌^◌, ◌≤◌, ◌<◌}
pub use mathlib.Core.Path.{◌≡◌, refl, sym, ap, subst, ◌∙◌}
pub use mathlib.Core.Logic.{◌≢◌, ◌↔◌, ◌⊎◌, inl, inr}
pub use mathlib.Core.Bool.{Bool, true, false, not, ◌&&◌, ◌||◌}
pub use mathlib.Core.Option.{Option, none, some}
pub use mathlib.Core.List.{List, [], ◌∷◌, ◌++◌, map}
pub use native.Mathlib.Omega.{arith}

-- ===== src/Prelude.antt =====
-- The names that the other modules share: the libraries', passed on, with those of the children.
pub mod Tests
pub mod Equality
pub mod Lists
pub mod Map
pub mod Text
pub mod Int
pub use Tests.{ltb, leb, if◌then◌else◌, Bool-cases, Option-cases, is_nil, is_some}
pub use Equality.{Eq, ◌==◌, eq_iff, eq_refl, nat_eq, bool_eq, list_eq, pair_eq}
pub use Lists.{
  All, length, any, filter, count, length-append, any-append, filter-append, count-append,
}
pub use Text.{Str, str, has_prefix, trim_prefix, trim_suffix}
unfoldable pub use Text.{strip_prefix, cut, lt_str}
pub use Int.{ℤ, pos, negsuc, lt_int, is_zero}
pub use Prim.Native.Nat.{ℕ, zero, suc, ◌+◌, ◌-◌, ◌≤◌, ◌<◌}
pub use Prim.Native.String.{String}
pub use mathlib.Core.Path.{◌≡◌, refl, sym, ap, ◌∙◌}
pub use mathlib.Core.Logic.{◌≢◌, ◌↔◌, ◌⊎◌, inl, inr}
pub use mathlib.Core.Bool.{Bool, true, false, not, ◌&&◌, ◌||◌}
pub use mathlib.Core.Option.{Option, none, some}
pub use mathlib.Core.List.{List, [], ◌∷◌, ◌++◌, map}
pub use native.Mathlib.Omega.{arith}

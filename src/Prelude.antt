-- ===== src/Prelude.antt =====
-- The names that the other modules share: the libraries', passed on, and those of the children.
mod Tests
mod Lists
mod Int
mod Strings
pub mod Trim
pub use Tests.*
pub use Lists.*
pub use Int.{
  ℤ, pos, negsuc, pos_part, neg_part, sub_ℕ, ◌≤ℤ◌, ltbℤ, lebℤ, eqbℤ, ltbℤ→lt, ltbℤ→ge, eq_of_parts,
  eqbℤ→eq, +ℤ_parts, int_laws, InInt64, wrap64_exact, add64, add64_pos, add64_nonneg,
  neg_part_of_positive, scale64, scale64_pos, negate64,
}
unfoldable pub use Int.{◌+ℤ◌, wrap64}
pub use Strings.{Text, codes, Text-set, text_eq_iff, text_eq_refl, append-eq_nil}
unfoldable pub use Strings.{
  text_eq, is_empty, is_space, drop_while, drop_while_end, trim, trim_space, to_lower, equal_fold,
  has_prefix, trim_prefix, contains, split_on,
}
pub use Prim.Native.Nat.{ℕ, zero, suc, ◌+◌, ◌-◌, ◌*◌, ◌/◌, ◌%◌, ◌^◌, ◌≤◌, ◌<◌, max}
pub use mathlib.Core.Path.{◌≡◌, refl, sym, ap, ◌∙◌, subst}
pub use mathlib.Core.Logic.{◌≢◌, ◌↔◌, ◌⊎◌, inl, inr}
pub use mathlib.Core.Bool.{Bool, true, false, not, ◌&&◌, ◌||◌}
pub use mathlib.Core.Option.{Option, none, some}
pub use mathlib.Core.List.{List, [], ◌∷◌, ◌++◌, map}
pub use native.Mathlib.Omega.{arith}
unfoldable pub use native.Mathlib.Decide.{ℕ_discrete}

-- ===== src/Prelude.antt =====
-- The names that every module shares: the libraries', passed on, and the helpers of the children
-- (tests on numbers, text, signed integers, lists by native numbers).
mod Tests
mod Lists
mod Text
pub mod Int
pub mod Try
pub use Tests.*
pub use Lists.*
pub use Text.*
pub use Int.{
  ℤ, pos, negsuc, sub_ℕ, ◌≤ℤ◌, ltb_ℤ, leb_ℤ, min_ℤ, sat_add_i64, sat_sub_i64, leb_ℤ→≤ℤ, ltb_ℤ→≰ℤ,
}
pub use Prim.Native.Nat.{ℕ, zero, suc, ◌+◌, ◌-◌, ◌*◌, ◌/◌, ◌%◌, ◌^◌, ◌≤◌, ◌<◌, min}
pub use Prim.Native.String.{String, len}
pub use mathlib.Core.Path.{◌≡◌, refl, sym, ap, ◌∙◌, subst}
pub use mathlib.Core.Logic.{◌≢◌, ◌↔◌, ◌⊎◌, inl, inr}
pub use mathlib.Core.Bool.{Bool, true, false, not, ◌&&◌, ◌||◌}
pub use mathlib.Core.Option.{Option, none, some}
pub use mathlib.Core.List.{List, [], ◌∷◌, ◌++◌, map, append_assoc, append-nil}
pub use native.Mathlib.Omega.{arith}

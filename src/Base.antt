-- ===== src/Base.antt =====
-- The names that the components share: the libraries', passed on, and those of the children.
pub mod Tests
pub mod Integers
pub mod Lists
pub mod Predicates
pub mod Text
pub mod Result
pub mod Rows
pub mod Loops
pub use Tests.*
pub use Lists.*
unfoldable pub use Lists.{list_at}
pub use Predicates.{
  All, Pairwise, All-snoc, All-map, All-and, find_if-All, Pairwise-snoc, All-get, All-update,
  find_if-holds, true-ne-false,
}
unfoldable pub use Text.{to_string, join, find_char}
pub use Prim.Native.Nat.{ℕ, zero, suc, ◌+◌, ◌-◌, ◌*◌, ◌/◌, ◌%◌, ◌^◌, ◌≤◌, ◌<◌, min, max}
pub use Prim.Native.String.{String}
pub use mathlib.Core.Path.{◌≡◌, refl, sym, ap, ◌∙◌, subst, fun_ext}
pub use mathlib.Core.Logic.{◌≢◌, ◌↔◌, ◌⊎◌, inl, inr}
pub use mathlib.Core.Bool.{Bool, true, false, not, ◌&&◌, ◌||◌}
pub use mathlib.Core.Option.{Option, none, some}
pub use mathlib.Core.List.{List, [], ◌∷◌, ◌++◌, map, append-nil, append_assoc}
pub use native.Mathlib.Omega.{arith}

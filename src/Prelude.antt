-- ===== src/Prelude.antt =====
-- The names that every module shares: the libraries', passed on, and those of the children.
mod Tests
mod Lists
mod Bytes
pub mod Sort
pub mod Dict
pub mod Paths
pub mod Relative
pub mod Int
pub use Tests.*
pub use Lists.*
unfoldable pub use Bytes.{equal, contains, to_lower, trim_space, text_leb}
pub use Bytes.{
  Text, text, equal_iff, equal_refl, equal_sym, contains-append, text_leb_total, text_leb_antisymm,
  text_leb_trans, is_space, lower,
}
pub use Prim.Native.Nat.{ℕ, zero, suc, ◌+◌, ◌-◌, ◌*◌, ◌≤◌, ◌<◌}
pub use Prim.Native.String.{String}
pub use mathlib.Core.Path.{◌≡◌, refl, sym, ap, ◌∙◌, subst}
pub use mathlib.Core.Logic.{◌≢◌, ◌↔◌, ◌⊎◌, inl, inr}
pub use mathlib.Core.Bool.{Bool, true, false, not, ◌&&◌, ◌||◌}
pub use mathlib.Core.Option.{Option, none, some}
pub use mathlib.Core.List.{List, [], ◌∷◌, ◌++◌, map}
pub use native.Mathlib.Omega.{arith}

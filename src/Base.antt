-- ===== src/Base.antt =====
-- The names that the other modules share: the libraries', passed on, and those of the children.
-- Base/Tests: Boolean tests; Base/Lists: lists over native numbers; Base/Text: Go strings;
-- Base/Errors: error values and results; Base/Int: Go's int; Base/Dict: a Go map from strings.
mod Tests
mod Lists
mod Text
mod Errors
mod Int
pub mod Dict
pub use Tests.*
pub use Lists.*
unfoldable pub use Text.{str_eq, has_prefix, has_suffix, trim_prefix, get_last?}
pub use Text.*
pub use Errors.*
pub use Int.*
unfoldable pub use Int.{int_eq, increment}
pub use Prim.Native.Nat.{ℕ, zero, suc, ◌+◌, ◌-◌, ◌*◌, ◌/◌, ◌%◌, ◌^◌, ◌≤◌, ◌<◌}
pub use mathlib.Core.Path.{◌≡◌, refl, sym, ap, ◌∙◌, subst}
pub use mathlib.Core.Logic.{◌≢◌, ◌↔◌, ◌⊎◌, inl, inr}
pub use mathlib.Core.Bool.{Bool, true, false, not, ◌&&◌, ◌||◌}
pub use mathlib.Core.Option.{Option, none, some, some-injective}
pub use mathlib.Core.List.{List, [], ◌∷◌, ◌++◌, map}
pub use native.Mathlib.Omega.{arith}

-- ===== src/Base.antt =====
-- The names that the other modules share: the libraries', passed on, and those of the children.
-- Base/Tests has the Boolean tests and the conditional, Base/Exceptions the exceptions as values,
-- Base/Lists, Base/Positions and Base/Unique the list helpers, Base/Dictionary Python's dictionaries
-- with text keys and Base/Text the identifier patterns.
mod Tests
mod Exceptions
mod Lists
mod Dictionary
mod Unique
mod Positions
mod Text
pub use moduagent.Base.Tests.*
pub use Exceptions.*
pub use Lists.*
pub use Positions.*
pub use Unique.*
unfoldable pub use Dictionary.*
unfoldable pub use Text.*
pub use Prim.Native.Nat.{ℕ, zero, suc, ◌+◌, ◌-◌, ◌≤◌, ◌<◌, min, max}
pub use Prim.Native.String.{String}
pub use mathlib.Core.Path.{◌≡◌, refl, sym, ap, subst, ◌∙◌}
pub use mathlib.Core.Logic.{◌≢◌, ◌↔◌, ◌⊎◌, inl, inr}
pub use mathlib.Core.Bool.{Bool, true, false, not, ◌&&◌, ◌||◌}
pub use mathlib.Core.Option.{Option, none, some}
pub use mathlib.Core.List.{List, [], ◌∷◌, ◌++◌, map}
pub use native.Mathlib.Omega.{arith}
pub use text.Mathlib.Text.{◌==◌ as str_eq}
pub use text.Mathlib.TextEquality.{eq_iff}
pub use text.Mathlib.TextPositions.{eq_refl}

-- ===== src/Common.antt =====
-- Names that the modules share: the libraries' names passed on, and the helpers of the modules below.
mod Tests
mod Fallible
mod Branches
mod Ordered
mod Lists
mod Collections
mod Words
mod Texts
mod Digits
mod Decimal
mod Bytes
mod Visited
pub use Tests.*
pub use Fallible.*
pub use Branches.*
pub use Ordered.*
pub use Lists.*
unfoldable pub use Collections.*
pub use Words.*
unfoldable pub use Texts.*
unfoldable pub use Digits.*
pub use Visited.*
pub use Prim.Native.Nat.{ℕ, zero, suc, ◌+◌, ◌-◌, ◌*◌, ◌/◌, ◌%◌, ◌^◌, ◌≤◌, ◌<◌, min}
pub use Prim.Native.String.{String}
pub use mathlib.Core.Path.{◌≡◌, refl, sym, ◌∙◌, ap, subst}
pub use mathlib.Core.Logic.{◌≢◌, ◌↔◌, ◌⊎◌, inl, inr}
pub use mathlib.Core.Bool.{Bool, true, false, not, ◌&&◌, ◌||◌}
pub use mathlib.Core.Option.{Option, none, some}
pub use mathlib.Core.List.{List, [], ◌∷◌, ◌++◌, map, reverse}
pub use native.Mathlib.Omega.{arith}
pub use text.Mathlib.Text.{◌==◌}
pub use text.Mathlib.TextEquality.{eq_iff}
pub use text.Mathlib.TextPositions.{eq_refl}
pub use Bytes.*
pub use Decimal.{chars_all-append, chars_all-decimal, contains_char-chars_all}

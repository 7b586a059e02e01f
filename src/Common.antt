-- ===== src/Common.antt =====
-- Names that all modules share: the libraries', passed on, and those of the children below.
mod Tests
mod Lists
mod Texts
pub mod Dict
pub mod Int
pub mod Double
pub mod Json
pub mod Members
pub mod Result
pub mod Streams
pub mod Sorting
pub mod Numbers
pub use Tests.*
pub use Lists.*
unfoldable pub use Texts.{text_eq, text_lt, has_text, decimal}
pub use Texts.{Text, IsDistinct, text_eq_iff, text_eq_refl, codes, decimal-injective}
pub use Prim.Native.Nat.{ℕ, zero, suc, ◌+◌, ◌-◌, ◌*◌, ◌/◌, ◌%◌, ◌^◌, ◌≤◌, ◌<◌}
pub use mathlib.Core.Path.{◌≡◌, refl, sym, ap, ◌∙◌, subst}
pub use mathlib.Core.Logic.{◌≢◌, ◌↔◌, ◌⊎◌, inl, inr}
pub use mathlib.Core.Bool.{Bool, true, false, not, ◌&&◌, ◌||◌}
pub use mathlib.Core.Option.{Option, none, some}
pub use mathlib.Core.List.{List, [], ◌∷◌, ◌++◌, map}
pub use native.Mathlib.Omega.{arith}

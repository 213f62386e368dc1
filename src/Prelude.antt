-- ===== src/Prelude.antt =====
-- The names that every module shares: the libraries', passed on, with the Boolean tests, the
-- lists, the maps and the byte strings of the children.
mod Tests
mod Lists
mod Equality
mod Text
mod Utf8
mod Maps
mod Sizes
mod Decimal
pub use Tests.*
pub use Lists.*
unfoldable pub use Equality.*
unfoldable pub use Text.*
unfoldable pub use Utf8.*
unfoldable pub use Maps.*
pub use Sizes.*
unfoldable pub use Decimal.*
pub use Prim.Native.Nat.{ℕ, zero, suc, ◌+◌, ◌-◌, ◌*◌, ◌/◌, ◌%◌, ◌^◌, ◌≤◌, ◌<◌, min, max}
pub use mathlib.Core.Path.{◌≡◌, refl, sym, ap, ◌∙◌}
pub use mathlib.Core.Logic.{◌≢◌, ◌↔◌, ◌⊎◌, inl, inr}
pub use mathlib.Core.Bool.{Bool, true, false, not, ◌&&◌, ◌||◌}
pub use mathlib.Core.Option.{Option, none, some}
pub use mathlib.Core.List.{List, [], ◌∷◌, ◌++◌, map, append-nil, append_assoc}
pub use native.Mathlib.Omega.{arith}
unfoldable pub use native.Mathlib.Decide.{ℕ_discrete}

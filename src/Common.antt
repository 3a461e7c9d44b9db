-- ===== src/Common.antt =====
-- The names that the other modules share: those of the libraries, passed on, and the helpers on
-- tests, lists and maps.
mod Tests
mod Lists
mod Maps
mod Ints
mod Results
mod Texts
mod Splits
pub use Tests.*
pub use Lists.*
unfoldable pub use Maps.*
pub use Ints.*
pub use Results.*
unfoldable pub use Texts.*
pub use Splits.*
pub use Prim.Native.Nat.{ℕ, zero, suc, ◌+◌, ◌-◌, ◌*◌, ◌/◌, ◌%◌, ◌^◌, ◌≤◌, ◌<◌}
pub use Prim.Native.String.{String}
pub use mathlib.Core.Path.{◌≡◌, refl, sym, ap, subst, ◌∙◌}
pub use mathlib.Core.Logic.{◌≢◌, ◌↔◌, ◌⊎◌, inl, inr}
pub use mathlib.Core.Bool.{Bool, true, false, not, ◌&&◌, ◌||◌}
pub use mathlib.Core.Option.{Option, none, some}
pub use mathlib.Core.List.{List, [], ◌∷◌, ◌++◌, map}
pub use native.Mathlib.Omega.{arith}

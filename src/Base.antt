-- ===== src/Base.antt =====
-- Names shared by every module: the libraries', passed on, and those of the children. No code of
-- the repository is modelled here.
mod Tests
mod Lists
mod Maps
mod Ints
mod Strings
mod Dict
pub use Tests.*
pub use Lists.*
pub use Maps.*
pub use Ints.*
unfoldable pub use Strings.*
unfoldable pub use Dict.*
pub use Prim.Native.Nat.{ℕ, zero, suc, ◌+◌, ◌-◌, ◌*◌, ◌/◌, ◌%◌, ◌^◌, ◌≤◌, ◌<◌}
pub use mathlib.Core.Path.{◌≡◌, refl, sym, ap, ◌∙◌, subst}
pub use mathlib.Core.Logic.{◌≢◌, ◌↔◌, ◌⊎◌, inl, inr}
pub use mathlib.Core.Bool.{Bool, true, false, not, ◌&&◌, ◌||◌}
pub use mathlib.Core.Option.{Option, none, some}
pub use mathlib.Core.List.{List, [], ◌∷◌, ◌++◌, map}
pub use native.Mathlib.Omega.{arith}

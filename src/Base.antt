-- ===== src/Base.antt =====
-- Names that every module shares: the libraries' names passed on, and those of the children below.
mod Tests
mod Lists
mod Errors
pub mod Sums
pub mod Int
pub mod Dict
pub mod Bytes
pub mod Hex
pub use Tests.*
unfoldable pub use Lists.{mem}
pub use Lists.*
unfoldable pub use Errors.{traverse}
pub use Errors.*
pub use Prim.Native.Nat.{ℕ, zero, suc, ◌+◌, ◌-◌, ◌*◌, ◌/◌, ◌%◌, ◌^◌, ◌≤◌, ◌<◌, min, max}
pub use mathlib.Core.Path.{◌≡◌, refl, sym, ap, ap₂, ◌∙◌}
pub use mathlib.Core.Logic.{◌≢◌, ◌↔◌, ◌⊎◌, inl, inr}
pub use mathlib.Core.Bool.{Bool, true, false, not, ◌&&◌, ◌||◌}
pub use mathlib.Core.Option.{Option, none, some}
pub use mathlib.Core.List.{List, [], ◌∷◌, ◌++◌, map}
pub use native.Mathlib.Omega.{arith}
unfoldable pub use native.Mathlib.Decide.{dec_lt, ℕ_discrete}

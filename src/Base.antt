-- ===== src/Base.antt =====
-- Names that the other modules share: the libraries', and those of the children.
mod Tests
mod Lists
mod Slots
pub mod Bits
pub mod Words
pub mod Bytes
pub mod Text
pub mod Slices
pub mod Overwrite
pub use Tests.*
pub use Lists.*
unfoldable pub use Slots.*
pub use Prim.Native.Nat.{ℕ, zero, suc, ◌+◌, ◌-◌, ◌*◌, ◌/◌, ◌%◌, ◌^◌, ◌≤◌, ◌<◌, min, max}
pub use mathlib.Core.Path.{◌≡◌, refl, sym, ap, ap₂, subst, ◌∙◌}
pub use mathlib.Core.Logic.{◌≢◌, ◌↔◌, ◌⊎◌, inl, inr}
pub use mathlib.Core.Bool.{Bool, true, false, not, ◌&&◌, ◌||◌}
pub use mathlib.Core.Option.{Option, none, some}
pub use mathlib.Core.List.{List, [], ◌∷◌, ◌++◌, map}
pub use native.Mathlib.Omega.{arith}

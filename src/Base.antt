-- ===== src/Base.antt =====
-- What the other modules share: library names passed on, tests, lists, exceptions and sets.
mod Tests
mod Lists
mod Exceptions
mod Sets
mod Sort
mod Chunks
pub mod Numpy
pub mod Integer
pub mod Text
pub mod Action
pub use Tests.*
pub use Lists.*
pub use Exceptions.*
unfoldable pub use Sets.*
pub use Chunks.*
unfoldable pub use Sort.*
pub use Prim.Native.Nat.{ℕ, zero, suc, ◌+◌, ◌-◌, ◌*◌, ◌/◌, ◌%◌, ◌^◌, ◌≤◌, ◌<◌, min, max}
pub use mathlib.Core.Bool.{Bool, true, false, not, ◌&&◌, ◌||◌}
pub use mathlib.Core.List.{List, [], ◌∷◌, ◌++◌, map, append_assoc, append-nil}
unfoldable pub use mathlib.Core.List.{flatten}
pub use mathlib.Core.Logic.{◌≢◌, ◌↔◌, ◌⊎◌, inl, inr}
pub use mathlib.Core.Option.{Option, none, some}
pub use mathlib.Core.Path.{◌≡◌, refl, sym, ap, ◌∙◌}
pub use native.Mathlib.Omega.{arith}

-- ===== src/Prelude.antt =====
-- The names that the other modules share: those of the libraries, Boolean tests and lists over the
-- native numbers, integers, texts as lists of code points, and updates of a function.
mod Tests
mod Lists
mod Store
pub mod Result
pub mod Rows
pub mod Keys
pub mod Queries
pub mod Int
pub mod Text
pub mod TextEquality
pub use Tests.*
pub use Lists.*
pub use Store.*
pub use Prim.Native.Nat.{ℕ, zero, suc, ◌+◌, ◌-◌, ◌*◌, ◌/◌, ◌%◌, ◌^◌, ◌≤◌, ◌<◌, min, max}
pub use mathlib.Core.Path.{◌≡◌, refl, sym, ap, ◌∙◌}
pub use mathlib.Core.Logic.{◌≢◌, ◌↔◌, ◌⊎◌, inl, inr}
pub use mathlib.Core.Bool.{Bool, true, false, not, ◌&&◌, ◌||◌}
pub use mathlib.Core.Option.{Option, none, some}
pub use mathlib.Core.List.{List, [], ◌∷◌, ◌++◌, map, append_assoc, append-nil}
pub use native.Mathlib.Omega.{arith}

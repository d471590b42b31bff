-- ===== src/Common.antt =====
-- The names that the other modules share: those of the libraries, and the Boolean tests. The
-- children `Sets` and `Maps` stand for the ordered containers of the C++ library.
mod Tests
mod Elements
mod Loops
mod Outcomes
pub mod Sets
pub mod Maps
pub mod Missing
pub use Tests.*
unfoldable pub use Loops.{for_each}
pub use Loops.*
pub use Elements.*
pub use Outcomes.*
pub use Prim.Native.Nat.{ℕ, zero, suc, ◌+◌, ◌-◌, ◌*◌, ◌%◌, ◌^◌, ◌≤◌, ◌<◌, bit_and}
pub use mathlib.Core.Path.{◌≡◌, refl, sym, ap, subst, ◌∙◌}
pub use mathlib.Core.Logic.{◌≢◌, ◌↔◌, ◌⊎◌, inl, inr}
pub use mathlib.Core.Bool.{Bool, true, false, not, ◌&&◌, ◌||◌}
pub use mathlib.Core.Option.{Option, none, some}
pub use mathlib.Core.List.{List, [], ◌∷◌, ◌++◌}
pub use native.Mathlib.Omega.{arith}

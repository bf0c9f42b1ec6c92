-- ===== src/Base.antt =====
-- The names that every module shares: those of the libraries, passed on, and those of the children
-- (tests, words and their bits, integers, arrays, outcomes). Nothing here models one file of the
-- program; these are the C operations on machine words that all of them use.
mod Tests
mod Arrays
mod Integers
mod Words
mod Bits
mod Outcomes
mod Simulation
pub use Tests.*
pub use Arrays.*
unfoldable pub use Integers.*
pub use Words.*
pub use Bits.*
pub use Outcomes.*
pub use Simulation.*
pub use Prim.Native.Nat.{ℕ, zero, suc, ◌+◌, ◌-◌, ◌*◌, ◌/◌, ◌%◌, ◌^◌, ◌≤◌, ◌<◌}
pub use Prim.Native.Nat.{bit_and, bit_or, bit_xor}
pub use mathlib.Core.Path.{◌≡◌, refl, sym, ap, ◌∙◌}
pub use mathlib.Core.Logic.{◌≢◌, ◌↔◌, ◌⊎◌, inl, inr}
pub use mathlib.Core.Bool.{Bool, true, false, ◌&&◌, ◌||◌}
pub use mathlib.Core.Option.{Option, none, some}
pub use mathlib.Core.List.{List, [], ◌∷◌, ◌++◌}
pub use native.Mathlib.Omega.{arith}

-- ===== src/Base.antt =====
-- Shared by every component: the library names they use, Boolean tests on numbers, lists measured
-- by native numbers, bytes, and the outcome of a Go call.
mod Tests
mod Lists
mod Calls
pub mod Bits
pub mod Loops
pub mod Xor
pub mod BigEndian
pub use Tests.*
pub use Lists.*
unfoldable pub use Calls.{index, slice_in, prefix_in}
pub use Calls.*
pub use Prim.Native.Nat.{ℕ, zero, suc, ◌+◌, ◌-◌, ◌*◌, ◌/◌, ◌%◌, ◌^◌, ◌≤◌, ◌<◌}
pub use Prim.Native.Nat.{bit_and, bit_or, bit_xor}
pub use mathlib.Core.Path.{◌≡◌, refl, sym, ap, ◌∙◌, subst}
pub use mathlib.Core.Logic.{◌≢◌, ◌↔◌, ◌⊎◌, inl, inr}
pub use mathlib.Core.Bool.{Bool, true, false, ◌&&◌, ◌||◌, not}
pub use mathlib.Core.Option.{Option, none, some}
pub use mathlib.Core.List.{List, [], ◌∷◌, ◌++◌, map, append_assoc, append-nil}
pub use native.Mathlib.Omega.{arith}

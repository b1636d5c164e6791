-- ===== src/Common.antt =====
-- Names shared by every module: those of the libraries, passed on, C's fixed-width arithmetic and
-- comparisons, and lists measured and indexed by the native numbers.
mod Tests
mod Lists
mod Words
pub mod Status
pub mod Bits
pub mod Memory
pub mod Maps
pub use Tests.*
pub use Lists.*
pub use Words.*
pub use Status.{
  ErrorCode, success, failure, ℤ, pos, negsuc, is_negative, int_ltb, int_eq, Outcome, returns,
  aborts,
}
pub use Prim.Native.Nat.{ℕ, zero, suc, ◌+◌, ◌-◌, ◌*◌, ◌/◌, ◌%◌, ◌^◌, ◌≤◌, ◌<◌, min, max}
pub use Prim.Native.Nat.{bit_and, bit_or}
pub use mathlib.Core.Path.{◌≡◌, refl, sym, ap, ap₂, ◌∙◌, subst}
pub use mathlib.Core.Logic.{◌≢◌, ◌↔◌, ◌⊎◌, inl, inr}
pub use mathlib.Core.Bool.{Bool, true, false, not, ◌&&◌, ◌||◌}
pub use mathlib.Core.Option.{Option, none, some}
pub use mathlib.Core.List.{List, [], ◌∷◌, ◌++◌, map, append-nil, append_assoc}
pub use native.Mathlib.Omega.{arith}

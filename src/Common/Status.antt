-- ===== src/Common/Status.antt =====
-- include/rawr/Error.h: `rawr_ErrorCode`, the guards, and a failed `RAWR_ASSERT`.
use Prim.Native.Nat.{ℕ}
use rawr.Common.Tests.{ltb, ◌==◌}
use mathlib.Core.Bool.{Bool, true, false}

-- `rawr_Success` (also `RAWR_OK`) and `rawr_Error` (also `RAWR_ERR`).
pub data ErrorCode : Type 0 where
  success failure : ErrorCode

-- A C `int`; `negsuc n` is -(n + 1).
pub data ℤ : Type 0 where
  pos : ℕ → ℤ
  negsuc : ℕ → ℤ

abbrev pub is_negative : ℤ → Bool
is_negative (pos n) = false
is_negative (negsuc n) = true

-- A call that returns, or that ends the process in a failed assertion.
pub data Outcome {ℓ} (A : Type ℓ) : Type ℓ where
  returns : A → Outcome A
  aborts : Outcome A

-- `a < b` on `int`.
abbrev pub int_ltb : ℤ → ℤ → Bool
int_ltb (pos a) (pos b) = ltb a b
int_ltb (pos a) (negsuc b) = false
int_ltb (negsuc a) (pos b) = true
int_ltb (negsuc a) (negsuc b) = ltb b a

-- `a == b` on `int`.
abbrev pub int_eq : ℤ → ℤ → Bool
int_eq (pos a) (pos b) = a == b
int_eq (pos a) (negsuc b) = false
int_eq (negsuc a) (pos b) = false
int_eq (negsuc a) (negsuc b) = a == b

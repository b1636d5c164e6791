-- ===== src/Common/Bits/Digits.antt =====
-- The native `&` and `|` mean a walk over the binary digits that stops when its fuel does. With fuel
-- enough the walk does not depend on it, which gives each operation by its lowest digit and halves.
use Prim.Native.Nat.{ℕ, zero, suc, ◌+◌, ◌*◌, ◌/◌, ◌%◌, ◌≤◌, min, max, bit_and, bit_or}
use Prim.Native.Nat.{digits, bit_and-bitwise, bit_or-bitwise}
use mathlib.Core.Path.{◌≡◌, refl}
use native.Mathlib.Omega.{arith}

module _ (rest : ℕ → ℕ) (digit : ℕ → ℕ → ℕ) where
  -- More fuel than enough changes nothing.
  spare_fuel :
      (x fuel total y : ℕ)
      → x ≤ fuel
      → fuel ≤ total
      → digits rest digit total x y ≡ digits rest digit fuel x y
  spare_fuel zero zero zero y enough more = refl
  spare_fuel zero zero (suc total) y enough more = refl
  spare_fuel zero (suc fuel) zero y enough more = refl
  spare_fuel zero (suc fuel) (suc total) y enough more = refl
  spare_fuel (suc x) zero total y enough more = absurd (omega (arith, enough))
  spare_fuel (suc x) (suc fuel) zero y enough more = absurd (omega (arith, more))
  spare_fuel (suc x) (suc fuel) (suc total) y enough more =
      let half =
        spare_fuel (suc x / 2) fuel total (y / 2) (omega (arith, enough)) (omega (arith, more)) in
      omega (arith, half)

  own_fuel : (fuel x y : ℕ) → x ≤ fuel → digits rest digit fuel x y ≡ digits rest digit x x y
  own_fuel fuel x y enough = spare_fuel x x fuel y (omega arith) enough

pub lowest_and : (x y : ℕ) → bit_and x y ≡ min (x % 2) (y % 2) + bit_and (x / 2) (y / 2) * 2
lowest_and zero y = omega (arith, bit_and-bitwise 0 (y / 2), bit_and-bitwise 0 y)
lowest_and (suc x) y =
    let halves = own_fuel (λ n. 0) min x (suc x / 2) (y / 2) (omega arith) in
    omega (arith, halves, bit_and-bitwise (suc x / 2) (y / 2), bit_and-bitwise (suc x) y)

pub lowest_or : (x y : ℕ) → bit_or x y ≡ max (x % 2) (y % 2) + bit_or (x / 2) (y / 2) * 2
lowest_or zero y = omega (arith, bit_or-bitwise 0 (y / 2), bit_or-bitwise 0 y)
lowest_or (suc x) y =
    let halves = own_fuel (λ n. n) max x (suc x / 2) (y / 2) (omega arith) in
    omega (arith, halves, bit_or-bitwise (suc x / 2) (y / 2), bit_or-bitwise (suc x) y)

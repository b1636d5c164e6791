-- ===== src/Common/Bits.antt =====
-- Laws of `&` and `|` with masks of low bits, at every width.
mod Digits
use Digits.{lowest_or, lowest_and}
use Prim.Native.Nat.{
  ℕ, zero, suc, ◌+◌, ◌-◌, ◌*◌, ◌/◌, ◌%◌, ◌^◌, ◌≤◌, ◌<◌, bit_and, bit_or, bit_or-bitwise,
}
use mathlib.Core.Path.{◌≡◌, refl, ap, ap₂, sym, ◌∙◌}
use native.Mathlib.Nat.{
  pow-suc, pow-succ', one-le-pow, div-one, div-div-eq-div-mul, suc-add, zero-add,
}
use native.Mathlib.Decide.{ℕ_discrete}
use native.Mathlib.Omega.{arith}

-- Induction from the half of a number to the number.
halving_fuel :
    (P : ℕ → Type 0) → P 0 → ((n : ℕ) → P (suc n / 2) → P (suc n)) → (fuel n : ℕ) → n ≤ fuel → P n
halving_fuel P start step fuel zero bound = start
halving_fuel P start step zero (suc n) bound = absurd (omega arith)
halving_fuel P start step (suc fuel) (suc n) bound =
    step n (halving_fuel P start step fuel (suc n / 2) (omega arith))

halving : (P : ℕ → Type 0) → P 0 → ((n : ℕ) → P (suc n / 2) → P (suc n)) → (n : ℕ) → P n
halving P start step n = halving_fuel P start step n n (omega arith)

pub bit_and-zero : (n : ℕ) → bit_and n 0 ≡ 0
bit_and-zero =
    halving (λ n. bit_and n 0 ≡ 0) refl (λ n half. omega (arith, half, lowest_and (suc n) 0))

pub bit_or-zero : (n : ℕ) → bit_or n 0 ≡ n
bit_or-zero =
    halving (λ n. bit_or n 0 ≡ n) refl (λ n half. omega (arith, half, lowest_or (suc n) 0))

-- A field one place further up.
raise_field : (width high : ℕ) → high * 2 ^ suc width ≡ 2 * (high * 2 ^ width)
raise_field width high = omega (arith, ap (λ power. high * power) (pow-suc 2 width))

-- `&` with a mask of low bits keeps the low field.
pub bit_and_low :
    (width high low : ℕ) → low < 2 ^ width → bit_and (high * 2 ^ width + low) (2 ^ width - 1) ≡ low
bit_and_low zero high low fits = omega (arith, fits, bit_and-zero (high * 2 ^ 0 + low))
bit_and_low (suc width) high low fits =
    let half = bit_and_low width high (low / 2) (omega (arith, fits, pow-suc 2 width)) in
    ground (
      arith,
      half,
      raise_field width high,
      one-le-pow width 2,
      pow-suc 2 width,
      lowest_and (high * 2 ^ suc width + low) (2 ^ suc width - 1),
    )

-- So a mask of low bits takes a remainder.
pub bit_and_mask : (width n : ℕ) → bit_and n (2 ^ width - 1) ≡ n % 2 ^ width
bit_and_mask width n =
    let fields = bit_and_low width (n / 2 ^ width) (n % 2 ^ width) in
    ground (arith, fields, one-le-pow width 2)

-- `|` with a mask of low bits sets the low field.
pub bit_or_low :
    (width high low : ℕ)
    → low < 2 ^ width
    → bit_or (high * 2 ^ width + low) (2 ^ width - 1) ≡ high * 2 ^ width + (2 ^ width - 1)
bit_or_low zero high low fits = omega (arith, fits, bit_or-zero (high * 2 ^ 0 + low))
bit_or_low (suc width) high low fits =
    let half = bit_or_low width high (low / 2) (omega (arith, fits, pow-suc 2 width)) in
    ground (
      arith,
      half,
      raise_field width high,
      one-le-pow width 2,
      pow-suc 2 width,
      lowest_or (high * 2 ^ suc width + low) (2 ^ suc width - 1),
    )

-- `|` keeps to the digits above any place.
pub bit_or-div : (j a b : ℕ) → bit_or a b / 2 ^ j ≡ bit_or (a / 2 ^ j) (b / 2 ^ j)
bit_or-div zero a b = div-one (bit_or a b) ∙ ap₂ bit_or (sym (div-one a)) (sym (div-one b))
bit_or-div (suc j) a b =
    div_pow (bit_or a b)
    ∙ ap (λ n. n / 2 ^ j) half_or
    ∙ bit_or-div j (a / 2) (b / 2)
    ∙ ap₂ bit_or (sym (div_pow a)) (sym (div_pow b))
  where
    div_pow : (n : ℕ) → n / 2 ^ suc j ≡ n / 2 / 2 ^ j
    div_pow n = rw (pow-succ' 2 j) (sym (div-div-eq-div-mul n 2 (2 ^ j)))

    half_or : bit_or a b / 2 ≡ bit_or (a / 2) (b / 2)
    half_or = omega (arith, lowest_or a b)

-- Two powers of two multiply to the power of the sum.
pub pow-add : (j k : ℕ) → 2 ^ (j + k) ≡ 2 ^ j * 2 ^ k
pow-add zero k = rw zero-add (omega arith)
pow-add (suc j) k = omega (
  arith,
  ap (λ n. 2 ^ n) {x = suc j + k} (suc-add j k),
  pow-succ' 2 (j + k),
  ap (λ n. n * 2 ^ k) (pow-succ' 2 j),
  pow-add j k,
)

pub bit_and_self : (n : ℕ) → bit_and n n ≡ n
bit_and_self =
    halving (λ n. bit_and n n ≡ n) refl (λ n half. omega (arith, half, lowest_and (suc n) (suc n)))

-- The test `((n - 1) & n) == 0` on an even number tests its half, and on an odd one that it is 1.
pred_test_even : (n : ℕ) → 0 < n → n % 2 ≡ 0 → bit_and (n - 1) n ≡ bit_and (n / 2 - 1) (n / 2) * 2
pred_test_even n pos e = ground (arith, lowest_and (n - 1) n)

pred_test_odd : (n : ℕ) → n % 2 ≡ 1 → bit_and (n - 1) n ≡ n / 2 * 2
pred_test_odd n e = ground (arith, lowest_and (n - 1) n, bit_and_self (n / 2))

-- What passes the test is a power of two.
pow_of_pred_test_fuel :
    (fuel n : ℕ) → n ≤ fuel → 0 < n → bit_and (n - 1) n ≡ 0 → (k : ℕ) × (n ≡ 2 ^ k)
pow_of_pred_test_fuel zero n h pos e = absurd (omega arith)
pow_of_pred_test_fuel (suc fuel) n h pos e = elim (ℕ_discrete (n % 2) 0) [
  | yes even ↦
      let half =
        pow_of_pred_test_fuel fuel (n / 2) (omega arith) (omega arith)
          (omega (arith, pred_test_even n pos even)) in
      (suc half.0, omega (arith, half.1, pow-succ' 2 half.0))
  | no odd ↦ (0, omega (arith, pred_test_odd n (omega arith)))
]

pub pow_of_pred_test : (n : ℕ) → 0 < n → bit_and (n - 1) n ≡ 0 → (k : ℕ) × (n ≡ 2 ^ k)
pow_of_pred_test n = pow_of_pred_test_fuel n n (omega arith)

-- Every power of two passes it.
pub pred_test-pow : (k : ℕ) → bit_and (2 ^ k - 1) (2 ^ k) ≡ 0
pred_test-pow zero = refl
pred_test-pow (suc k) =
    ground (arith, pow-succ' 2 k, one-le-pow k 2, pred_test_even (2 ^ suc k), pred_test-pow k)

bit_or_comm_fuel : (n a b : ℕ) → a + b ≤ n → bit_or a b ≡ bit_or b a
bit_or_comm_fuel zero a b h =
    let a_zero : a ≡ 0 = omega arith in let b_zero : b ≡ 0 = omega arith in rw (a_zero, b_zero)
bit_or_comm_fuel (suc n) zero b h = bit_or-bitwise 0 b ∙ sym (bit_or-zero b)
bit_or_comm_fuel (suc n) (suc a) b h = omega (
  arith,
  lowest_or (suc a) b,
  lowest_or b (suc a),
  bit_or_comm_fuel n (suc a / 2) (b / 2) (omega arith),
)

pub bit_or_comm : (a b : ℕ) → bit_or a b ≡ bit_or b a
bit_or_comm a b = bit_or_comm_fuel (a + b) a b (omega arith)

-- `|` of a field and what lies below it is their sum.
pub bit_or_disjoint :
    (width high low : ℕ) → low < 2 ^ width → bit_or (high * 2 ^ width) low ≡ high * 2 ^ width + low
bit_or_disjoint zero high low fits =
    let none_below : low ≡ 0 = omega arith in
    rw none_below (bit_or-zero (high * 2 ^ 0) ∙ omega arith)
bit_or_disjoint (suc width) high low fits =
    let half = bit_or_disjoint width high (low / 2) (omega (arith, fits, pow-suc 2 width)) in
    ground
      (arith, half, raise_field width high, pow-suc 2 width, lowest_or (high * 2 ^ suc width) low)

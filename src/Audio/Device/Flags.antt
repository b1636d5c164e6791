-- ===== src/Audio/Device/Flags.antt =====
-- What the bits of a device's `rates` and `props` say.
use rawr.Common.{ℕ, zero, suc, ◌+◌, ◌*◌, ◌/◌, ◌%◌, ◌^◌, ◌≤◌, ◌<◌, ◌≡◌, sym, ap, ◌∙◌, arith}
use rawr.Common.{Bool, true, false, List, [], ◌∷◌, none, some, bit_or, get_elem?}
use rawr.Common.{ℤ, pos, int_ltb}
use rawr.Common.Bits.{bit_or_comm, bit_or_disjoint}
use rawr.Audio.Device.{or_if, rate_flags, device_props}
use native.Mathlib.Nat.{
  pow-succ', one-le-pow, div-eq_of_lt, div-one, div-div-eq-div-mul, mul-le-mul_right,
}
use native.Mathlib.Numerals.{add-one}

-- Bit `i` of a number.
abbrev pub bit : ℕ → ℕ → ℕ
bit n i = n / 2 ^ i % 2

abbrev pub bool_bit : Bool → ℕ
bool_bit true = 1
bool_bit false = 0

-- Setting the next bit above a number of `r` bits.
or_if-add :
    (condition : Bool) (r flags : ℕ)
    → flags < 2 ^ r
    → or_if condition (2 ^ r) flags ≡ bool_bit condition * 2 ^ r + flags
or_if-add true r flags h =
    bit_or_comm flags (2 ^ r)
    ∙ ap (λ k. bit_or k flags) {x = 2 ^ r} {y = 1 * 2 ^ r} (omega arith)
    ∙ bit_or_disjoint r 1 flags h
or_if-add false r flags h = omega arith

-- The number whose bits are the answers for the rates in turn.
answers : (ℕ → Bool) → List ℕ → ℕ
answers supported [] = 0
answers supported (rate ∷ rates) = bool_bit (supported rate) + 2 * answers supported rates

bool_bit-le : (b : Bool) → bool_bit b ≤ 1
bool_bit-le true = omega arith
bool_bit-le false = omega arith

-- The loop adds the answers above the bits that it starts with.
rate_flags-add :
    (supported : ℕ → Bool) (rates : List ℕ) (r flags : ℕ)
    → flags < 2 ^ r
    → rate_flags supported rates r flags ≡ flags + answers supported rates * 2 ^ r
unfolding rate_flags answers
rate_flags-add supported [] r flags h = omega arith
rate_flags-add supported (rate ∷ rates) r flags h =
    let b = bool_bit (supported rate) in
    let rest = answers supported rates in
    let double : 2 ^ (r + 1) ≡ 2 * 2 ^ r = ap (λ k. 2 ^ k) (add-one r) ∙ pow-succ' 2 r in
    let small : b * 2 ^ r ≤ 1 * 2 ^ r = mul-le-mul_right (2 ^ r) (bool_bit-le (supported rate)) in
    ap (rate_flags supported rates (r + 1)) (or_if-add (supported rate) r flags h)
    ∙ rate_flags-add supported rates (r + 1) (b * 2 ^ r + flags) (omega (arith, double, small))
    ∙ omega (arith, ap (λ k. rest * k) double)

bit-answers :
    (supported : ℕ → Bool) (rates : List ℕ) (i : ℕ)
    → bit (answers supported rates) i
      ≡ elim (get_elem? rates i) [ none ↦ 0 | some rate ↦ bool_bit (supported rate) ]
unfolding answers
bit-answers supported [] i =
    ap (λ k. k % 2) (div-eq_of_lt {n = 0} {m = 2 ^ i} (omega (arith, one-le-pow i 2)))
bit-answers supported (rate ∷ rates) zero =
    omega (arith, div-one (answers supported (rate ∷ rates)), bool_bit-le (supported rate))
bit-answers supported (rate ∷ rates) (suc i) =
    ap (λ k. k % 2) halved ∙ bit-answers supported rates i
  where
    rest : ℕ
    rest = answers supported rates

    half : (bool_bit (supported rate) + 2 * rest) / 2 ≡ rest
    half = omega (arith, bool_bit-le (supported rate))

    halved : (bool_bit (supported rate) + 2 * rest) / 2 ^ suc i ≡ rest / 2 ^ i
    halved = rw (pow-succ' 2 i) (
        sym (div-div-eq-div-mul (bool_bit (supported rate) + 2 * rest) 2 (2 ^ i))
        ∙ ap (λ k. k / 2 ^ i) half)

-- Bit `i` of a device's `rates` is the answer for the `i`-th rate, and no bit above the last rate is
-- set.
pub bit-rate_flags :
    (supported : ℕ → Bool) (rates : List ℕ) (i : ℕ)
    → bit (rate_flags supported rates 0 0) i
      ≡ elim (get_elem? rates i) [ none ↦ 0 | some rate ↦ bool_bit (supported rate) ]
bit-rate_flags supported rates i =
    ap (λ k. bit k i)
      (rate_flags-add supported rates 0 0 (omega arith) ∙ mul-one (answers supported rates))
    ∙ bit-answers supported rates i
  where
    mul-one : (n : ℕ) → 0 + n * 2 ^ 0 ≡ n
    mul-one n = omega arith

flag_table :
    (d i is o os : Bool)
    → let flags = or_if os 8 (or_if o 2 (or_if is 16 (or_if i 4 (or_if d 1 0)))) in
      (bit flags 0 ≡ bool_bit d)
      × (bit flags 1 ≡ bool_bit o)
      × (bit flags 2 ≡ bool_bit i)
      × (bit flags 3 ≡ bool_bit os)
      × (bit flags 4 ≡ bool_bit is)
flag_table d i is o os = ground arith

-- Each bit of a device's `props` says what the header's flag means: default device, output, input,
-- stereo output and stereo input.
pub bit-device_props :
    (is_default : Bool) (inputs outputs : ℤ)
    → let flags = device_props is_default inputs outputs in
      (bit flags 0 ≡ bool_bit is_default)
      × (bit flags 1 ≡ bool_bit (int_ltb (pos 0) outputs))
      × (bit flags 2 ≡ bool_bit (int_ltb (pos 0) inputs))
      × (bit flags 3 ≡ bool_bit (int_ltb (pos 1) outputs))
      × (bit flags 4 ≡ bool_bit (int_ltb (pos 1) inputs))
unfolding device_props
bit-device_props is_default inputs outputs =
    flag_table is_default (int_ltb (pos 0) inputs) (int_ltb (pos 1) inputs)
      (int_ltb (pos 0) outputs) (int_ltb (pos 1) outputs)

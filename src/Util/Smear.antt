-- ===== src/Util/Smear.antt =====
-- One step of the smearing doubles the number of ones at the top of a number of `n` bits.
use rawr.Common.{ℕ, ◌+◌, ◌-◌, ◌*◌, ◌/◌, ◌%◌, ◌^◌, ◌≤◌, ◌<◌, ◌≡◌, sym, ap, ap₂, ◌∙◌}
use rawr.Common.{arith, min, bit_or}
use rawr.Common.Bits.{bit_or-div, bit_or_low, bit_or_comm, pow-add}
use rawr.Util.{smear}
use native.Mathlib.Nat.{one-le-pow, div-div-eq-div-mul, div-eq_of_lt, div-eq_of_lt-le}
use native.Mathlib.Nat.{mod-lt, div-add-mod', add_comm, div-le_self, pow-le-pow_right}
use Prim.Native.Nat.{bit_or-bitwise}
use native.Mathlib.Decide.{dec_lt}

-- The top `m` of the `n` bits of `x` are ones, or all of them if there are fewer.
abbrev pub IsSmeared : ℕ → ℕ → ℕ → Type 0
IsSmeared m n x = (x < 2 ^ n) × (x / 2 ^ (n - min m n) ≡ 2 ^ min m n - 1)

div_pow_add : (x j k : ℕ) → x / 2 ^ (j + k) ≡ x / 2 ^ j / 2 ^ k
div_pow_add x j k = rw (pow-add j k) (sym (div-div-eq-div-mul x (2 ^ j) (2 ^ k)))

-- Ones shifted left by `k`.
ones-mul : (d k : ℕ) → (2 ^ d - 1) * 2 ^ k + 2 ^ k ≡ 2 ^ (d + k)
ones-mul d k =
    let up : 2 ^ d ≡ 2 ^ d - 1 + 1 = omega (arith, one-le-pow d 2) in
    omega (arith, pow-add d k, ap (λ n. n * 2 ^ k) up)

-- The ones of `d + k` bits, without the lowest `k`.
ones-div : (d k : ℕ) → (2 ^ (d + k) - 1) / 2 ^ k ≡ 2 ^ d - 1
ones-div d k =
    div-eq_of_lt-le (2 ^ k) (omega (arith, ones-mul d k, one-le-pow k 2))
      (omega (arith, ones-mul d k, one-le-pow k 2))

-- `m` ones above `e + d` further bits become `m + d` ones above `e`.
ones_step :
    (m d e x : ℕ) → d ≤ m → x / 2 ^ (e + d) ≡ 2 ^ m - 1 → smear m x / 2 ^ e ≡ 2 ^ (m + d) - 1
unfolding smear
ones_step m d e x h ones =
    bit_or-div e (x / 2 ^ m) x
    ∙ ap (λ n. bit_or n q) shifted
    ∙ bit_or_comm (2 ^ d - 1) q
    ∙ ap (λ n. bit_or n (2 ^ d - 1)) q_eq
    ∙ bit_or_low d (2 ^ m - 1) (q % 2 ^ d) (mod-lt q (omega (arith, one-le-pow d 2)))
    ∙ omega (arith, ones-mul m d, one-le-pow d 2)
  where
    q : ℕ
    q = x / 2 ^ e

    q_high : q / 2 ^ d ≡ 2 ^ m - 1
    q_high = sym (div_pow_add x e d) ∙ ones

    q_eq : q ≡ (2 ^ m - 1) * 2 ^ d + q % 2 ^ d
    q_eq = sym (div-add-mod' q (2 ^ d)) ∙ ap (λ n. n * 2 ^ d + q % 2 ^ d) q_high

    rest : m ≡ d + (m - d)
    rest = omega arith

    shifted : x / 2 ^ m / 2 ^ e ≡ 2 ^ d - 1
    shifted =
        sym (div_pow_add x m e)
        ∙ ap (λ n. x / 2 ^ n) (add_comm m e)
        ∙ div_pow_add x e m
        ∙ ap (λ n. q / 2 ^ n) rest
        ∙ div_pow_add q d (m - d)
        ∙ ap (λ n. n / 2 ^ (m - d)) (q_high ∙ ap (λ n. 2 ^ n - 1) rest)
        ∙ ones-div d (m - d)

-- No bit above the `n` bits is set.
smear-lt : (m n x : ℕ) → x < 2 ^ n → smear m x < 2 ^ n
unfolding smear
smear-lt m n x h =
    let y = bit_or (x / 2 ^ m) x in
    let high : y / 2 ^ n ≡ 0 =
      bit_or-div n (x / 2 ^ m) x
      ∙ ap₂ bit_or (div-eq_of_lt (omega (arith, div-le_self x (2 ^ m)))) (div-eq_of_lt h) in
    omega (
      arith,
      div-add-mod' y (2 ^ n),
      ap (λ k. k * 2 ^ n) high,
      mod-lt y (one-le-pow n 2 (omega arith)),
    )

-- A number that is all ones stays.
smear-ones : (m n x : ℕ) → n ≤ m → x < 2 ^ n → smear m x ≡ x
unfolding smear
smear-ones m n x h lt =
    let small : 2 ^ n ≤ 2 ^ m = pow-le-pow_right {n = 2} (omega arith) h in
    ap (λ k. bit_or k x) (div-eq_of_lt {n = x} {m = 2 ^ m} (omega arith)) ∙ bit_or-bitwise 0 x

-- Smearing by the number of ones at the top doubles it.
pub smear-IsSmeared : (m n x : ℕ) → IsSmeared m n x → IsSmeared (m + m) n (smear m x)
smear-IsSmeared m n x h = elim (dec_lt m n) [
  | yes more ↦
      let d : ℕ = min m (n - m) in
      let e : ℕ = n - min (m + m) n in
      let top : n - min m n ≡ e + d = omega arith in
      let ones : min m n ≡ m = omega arith in
      let grown : m + d ≡ min (m + m) n = omega arith in
      (
        smear-lt m n x h.0,
        ones_step m d e x (omega arith)
              (ap (λ k. x / 2 ^ k) (sym top) ∙ h.1 ∙ ap (λ k. 2 ^ k - 1) ones)
            ∙ ap (λ k. 2 ^ k - 1) grown,
      )
  | no all ↦
      let same : min m n ≡ min (m + m) n = omega arith in
      (
        smear-lt m n x h.0,
        ap (λ k. k / 2 ^ (n - min (m + m) n)) (smear-ones m n x (omega arith) h.0)
            ∙ ap (λ k. x / 2 ^ (n - k)) (sym same)
            ∙ h.1
            ∙ ap (λ k. 2 ^ k - 1) same,
      )
]

-- ===== src/Util/PowerOf2.antt =====
-- `rawr_Util_NextPowerOf2` returns the least power of two that is not below its argument.
use rawr.Common.{
  ℕ, zero, suc, ◌+◌, ◌-◌, ◌*◌, ◌/◌, ◌^◌, ◌≤◌, ◌<◌, ◌≡◌, refl, sym, ap, ◌∙◌, subst, arith,
}
use rawr.Common.{min, u32, ◌⊎◌, inl, inr}
use rawr.Util.{smear, next_power_of2}
use rawr.Util.Smear.{IsSmeared, smear-IsSmeared}
use native.Mathlib.Nat.{
  pow-succ', one-le-pow, div-eq_of_lt-le, div-one, pow-le-pow_right, mod-eq_of_lt,
}
use native.Mathlib.Decide.{dec_lt}

-- `n` is the number of binary digits of `x`.
abbrev IsWidth : ℕ → ℕ → Type 0
IsWidth n x = (x < 2 ^ n) × ((n ≡ 0) ⊎ (2 ^ n ≤ 2 * x))

width : (fuel x : ℕ) → x < 2 ^ fuel → (n : ℕ) × (n ≤ fuel) × IsWidth n x
width zero x h = (0, omega arith, (h, inl refl))
width (suc fuel) x h = elim (dec_lt x (2 ^ fuel)) [
  | yes below ↦ let r = width fuel x below in (r.0, omega (arith, r.1), r.2)
  | no top ↦ (suc fuel, omega arith, (h, inr (omega (arith, pow-succ' 2 fuel))))
]

-- The top digit is a one.
width-IsSmeared : (n x : ℕ) → IsWidth n x → IsSmeared 1 n x
width-IsSmeared zero x w = let x_zero : x ≡ 0 = omega (arith, w.0) in (w.0, rw x_zero refl)
width-IsSmeared (suc n) x w =
    let p = pow-succ' 2 n in
    let one_digit : min 1 (suc n) ≡ 1 = omega arith in
    let below : suc n - min 1 (suc n) ≡ n = omega arith in
    (
      w.0,
      ap (λ k. x / 2 ^ k) below
          ∙ div-eq_of_lt-le {k = 1} (2 ^ n) (omega (arith, w)) (omega (arith, w))
          ∙ ap (λ k. 2 ^ k - 1) (sym one_digit),
    )

abbrev smears : ℕ → ℕ
smears x = smear 16 (smear 8 (smear 4 (smear 2 (smear 1 x))))

-- After shifts by 1, 2, 4, 8 and 16 all of up to 32 digits are ones.
smear_all : (n x : ℕ) → n ≤ 32 → IsWidth n x → smears x + 1 ≡ 2 ^ n
smear_all n x h w =
    let s1 = smear-IsSmeared 1 n x (width-IsSmeared n x w) in
    let s2 = smear-IsSmeared 2 n _ s1 in
    let s4 = smear-IsSmeared 4 n _ s2 in
    let s8 = smear-IsSmeared 8 n _ s4 in
    let s16 = smear-IsSmeared 16 n _ s8 in
    let all : min 32 n ≡ n = omega arith in
    let none_left : n - min 32 n ≡ 0 = omega arith in
    let y = smears x in
    let ones : y ≡ 2 ^ n - 1 =
      sym (div-one y) ∙ ap (λ k. y / 2 ^ k) (sym none_left) ∙ s16.1 ∙ ap (λ k. 2 ^ k - 1) all in
    omega (arith, ones, one-le-pow n 2)

next_power_of2-width :
    (n val : ℕ) → n ≤ 32 → IsWidth n (u32 (val + 2 ^ 32 - 1)) → next_power_of2 val ≡ u32 (2 ^ n)
unfolding next_power_of2
next_power_of2-width n val h w = ap u32 (smear_all n (u32 (val + 2 ^ 32 - 1)) h w)

-- A width is tight, in terms of the number above.
pow-lt_of_width : (n val : ℕ) → 0 < val → IsWidth n (val - 1) → 2 ^ n < 2 * val
pow-lt_of_width zero val pos w = omega arith
pow-lt_of_width (suc n) val pos w = omega (arith, w)

-- For 1 up to 2^31 the result is a power of two, not below the argument, and less than twice it.
pub next_power_of2-least :
    (val : ℕ)
    → 0 < val
    → val ≤ 2 ^ 31
    → (k : ℕ) × (k ≤ 31) × (next_power_of2 val ≡ 2 ^ k) × (val ≤ 2 ^ k) × (2 ^ k < 2 * val)
next_power_of2-least val pos h =
    let x_eq : u32 (val + 2 ^ 32 - 1) ≡ val - 1 = omega arith in
    let (n, n_le, w) = width 31 (val - 1) (omega arith) in
    let bound : 2 ^ n ≤ 2 ^ 31 = pow-le-pow_right {n = 2} (omega arith) n_le in
    (
      n,
      n_le,
      next_power_of2-width n val (omega (arith, n_le)) (subst (IsWidth n) (sym x_eq) w)
          ∙ mod-eq_of_lt (omega (arith, bound)),
      omega (arith, w),
      pow-lt_of_width n val pos w,
    )

-- For 0, and for every argument above 2^31, the addition at the end wraps to 0.
pub next_power_of2-wraps :
    (val : ℕ) → val < 2 ^ 32 → (val ≡ 0) ⊎ (2 ^ 31 < val) → next_power_of2 val ≡ 0
next_power_of2-wraps val h out =
    next_power_of2-width 32 val (omega arith) (omega arith, inr (omega arith))

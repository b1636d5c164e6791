-- ===== src/RingBuffer/Masks.antt =====
-- What the masks of src/RingBuffer.c compute, for a buffer of `2 ^ k` elements with `k ≤ 63`: the
-- 64-bit wrap of `size_t` is invisible behind them, also at `2 ^ 63` elements.
use rawr.Common.{ℕ, suc, ◌+◌, ◌-◌, ◌*◌, ◌%◌, ◌^◌, ◌≤◌, ◌<◌, ◌≡◌, sym, ap, ◌∙◌, subst}
use rawr.Common.{arith, bit_and, add_size, sub_size, ltb, if◌then◌else◌}
use rawr.Common.Bits.{bit_and_mask, pow-add}
use native.Mathlib.Nat.{mod-eq_of_lt, mod-eq-sub-mod, pow-le-pow_right, one-le-pow, pow-succ'}
use native.Mathlib.Nat.{add-mul-mod_self_right, add-mod_right, mod-mod_of_dvd, dvd-mul_left}
use native.Mathlib.Decide.{dec_lt}
use Prim.Native.Nat.{◌∣◌}

-- How far index `w` is ahead of index `r`, on a circle of `m` positions.
abbrev pub ahead : ℕ → ℕ → ℕ → ℕ
ahead m w r = if ltb w r then w + m - r else w - r

-- Index `w`, moved on by `n`.
abbrev pub moved : ℕ → ℕ → ℕ → ℕ
moved m w n = if ltb (w + n) m then w + n else w + n - m

-- The number of elements and the number of index positions, which is twice that.
pub pow_facts :
    (k : ℕ)
    → k ≤ 63
    → (1 ≤ 2 ^ k) × (2 ^ k ≤ 2 ^ 63) × (2 ^ suc k ≡ 2 * 2 ^ k) × (2 ^ (63 - k) * 2 ^ suc k ≡ 2 ^ 64)
pow_facts k h = (
  one-le-pow k 2 (omega arith),
  pow-le-pow_right {n = 2} (omega arith) h,
  pow-succ' 2 k,
  sym (pow-add (63 - k) (suc k)) ∙ ap (λ e. 2 ^ e) {x = 63 - k + suc k} {y = 64} (omega arith),
)

-- A remainder by `2 ^ 64` is invisible to a remainder by a smaller power of two.
mod-size_mod : (k x : ℕ) → k ≤ 63 → x % 2 ^ 64 % 2 ^ suc k ≡ x % 2 ^ suc k
mod-size_mod k x h = mod-mod_of_dvd (2 ^ suc k) x divides
  where
    divides : 2 ^ suc k ∣ 2 ^ 64
    divides = subst (λ n. 2 ^ suc k ∣ n) (pow_facts k h).3 (dvd-mul_left (2 ^ suc k) (2 ^ (63 - k)))

masked : (k x : ℕ) → k ≤ 63 → bit_and (x % 2 ^ 64) (2 ^ suc k - 1) ≡ x % (2 * 2 ^ k)
masked k x h =
    bit_and_mask (suc k) (x % 2 ^ 64) ∙ mod-size_mod k x h ∙ ap (λ m. x % m) (pow_facts k h).2

-- Going back by `r` from `w`, with `c` whole turns added first.
mod-ahead : (m c w r : ℕ) → w < m → r < m → r ≤ c * m → (w + c * m - r) % m ≡ ahead m w r
mod-ahead m c w r hw hr hc = elim (dec_lt w r) [
  | yes behind ↦
      sym (add-mod_right (w + c * m - r) m)
      ∙ ap (λ x. x % m) (behind_eq behind)
      ∙ add-mul-mod_self_right (w + m - r) c m
      ∙ mod-eq_of_lt {n = w + m - r} (omega arith)
      ∙ ground arith
  | no ahead_of ↦
      ap (λ x. x % m) (ahead_eq ahead_of)
      ∙ add-mul-mod_self_right (w - r) c m
      ∙ mod-eq_of_lt {n = w - r} (omega arith)
      ∙ ground arith
]
  where
    behind_eq : w < r → w + c * m - r + m ≡ w + m - r + c * m
    behind_eq p = omega arith

    ahead_eq : ¬ (w < r) → w + c * m - r ≡ w - r + c * m
    ahead_eq p = omega arith

-- `(w - r) & bigMask`
pub sub_masked :
    (k w r : ℕ)
    → k ≤ 63
    → w < 2 * 2 ^ k
    → r < 2 * 2 ^ k
    → bit_and (sub_size w r) (2 ^ suc k - 1) ≡ ahead (2 * 2 ^ k) w r
sub_masked k w r h hw hr =
    masked k (w + 2 ^ 64 - r) h
    ∙ ap (λ x. (w + x - r) % (2 * 2 ^ k)) {x = 2 ^ 64} {y = c * (2 * 2 ^ k)} whole
    ∙ mod-ahead (2 * 2 ^ k) c w r hw hr (omega (arith, whole, pow_facts k h))
  where
    c : ℕ
    c = 2 ^ (63 - k)

    whole : 2 ^ 64 ≡ c * (2 * 2 ^ k)
    whole = sym (pow_facts k h).3 ∙ ap (λ m. c * m) (pow_facts k h).2

-- `(w + n) & bigMask`, which is what an index becomes that is advanced by at most one turn.
pub add_masked :
    (k w n : ℕ)
    → k ≤ 63
    → w < 2 * 2 ^ k
    → n ≤ 2 * 2 ^ k
    → bit_and (add_size w n) (2 ^ suc k - 1) ≡ moved (2 * 2 ^ k) w n
add_masked k w n h hw hn = masked k (w + n) h ∙ elim (dec_lt (w + n) (2 * 2 ^ k)) [
  | yes p ↦ mod-eq_of_lt {n = w + n} p ∙ ground arith
  | no p ↦
      mod-eq-sub-mod {n = w + n} {m = 2 * 2 ^ k} (omega arith)
      ∙ mod-eq_of_lt {n = w + n - 2 * 2 ^ k} (omega arith)
      ∙ ground arith
]

-- ===== src/RingBuffer/Init.antt =====
-- `rawr_RingBuffer_Initialize`: the check of the element count, and the buffer that it leaves.
use rawr.Common.{ℕ, suc, ◌-◌, ◌*◌, ◌^◌, ◌≤◌, ◌<◌, ◌≡◌, refl, sym, ap, ◌∙◌, subst, arith}
use rawr.Common.{List, length, bit_and, sub_size, mul_size, ◌⊎◌, inl, inr, ◌↔◌}
use rawr.Common.Bits.{pow_of_pred_test, pred_test-pow}
use rawr.RingBuffer.{RingBuffer, initialize}
use rawr.RingBuffer.Invariant.{IsValid, used}
use rawr.RingBuffer.Masks.{pow_facts}
use native.Mathlib.Decide.{ℕ_discrete}
use native.Mathlib.Nat.{pow-le-pow_right, one-le-pow}

-- The masks of `2 ^ order` elements, through the wrap at 64 bits.
mask_values :
    (order : ℕ)
    → order ≤ 63
    → (sub_size (2 ^ order) 1 ≡ 2 ^ order - 1)
      × (sub_size (mul_size (2 ^ order) 2) 1 ≡ 2 ^ suc order - 1)
mask_values order h = elim (ℕ_discrete order 63) [
  | yes top ↦ (omega (arith, pow_facts order h), rw top refl)
  | no below ↦
      let small : 2 ^ order ≤ 2 ^ 62 =
        pow-le-pow_right {n = 2} (omega arith) {j = 62} (omega arith) in
      (omega (arith, pow_facts order h), omega (arith, small, pow_facts order h))
]

-- For a count below 2^64 the function succeeds exactly on the powers of two and on 0.
pub initialize_iff :
    (rbuf : RingBuffer) (element_size_bytes element_count : ℕ) (bytes : List ℕ)
    → element_count < 2 ^ 64
    → ((initialize rbuf element_size_bytes element_count bytes).0 ≡ 0)
      ↔ ((element_count ≡ 0) ⊎ ((k : ℕ) × (element_count ≡ 2 ^ k)))
unfolding initialize
initialize_iff rbuf element_size_bytes element_count bytes h = (accepted, accepts)
  where
    test : ℕ
    test = bit_and (sub_size element_count 1) element_count

    pred_eq : 0 < element_count → sub_size element_count 1 ≡ element_count - 1
    pred_eq pos = omega arith

    passes : (initialize rbuf element_size_bytes element_count bytes).0 ≡ 0 → test ≡ 0
    passes e = ground arith

    accepted :
        (initialize rbuf element_size_bytes element_count bytes).0 ≡ 0
        → (element_count ≡ 0) ⊎ ((k : ℕ) × (element_count ≡ 2 ^ k))
    accepted e = elim (ℕ_discrete element_count 0) [
      | yes z ↦ inl z
      | no pos ↦ inr (
          pow_of_pred_test element_count (omega arith)
            (ap (λ n. bit_and n element_count) (sym (pred_eq (omega arith))) ∙ passes e))
    ]

    accepts :
        (element_count ≡ 0) ⊎ ((k : ℕ) × (element_count ≡ 2 ^ k))
        → (initialize rbuf element_size_bytes element_count bytes).0 ≡ 0
    accepts (inl z) = rw z refl
    accepts (inr (k, e)) =
        let pos : 0 < element_count = omega (arith, e, one-le-pow k 2) in
        let zero_test : test ≡ 0 =
          ap (λ n. bit_and n element_count) (pred_eq pos)
          ∙ subst (λ n. bit_and (n - 1) n ≡ 0) (sym e) (pred_test-pow k) in
        rw zero_test

-- With a power of two up to 2^63, elements of at least one byte, and an array of exactly that many
-- elements and fewer than 2^64 bytes, the function succeeds and leaves an empty valid buffer.
pub initialize-IsValid :
    (rbuf : RingBuffer) (element_size_bytes order : ℕ) (bytes : List ℕ)
    → order ≤ 63
    → 0 < element_size_bytes
    → length bytes ≡ 2 ^ order * element_size_bytes
    → length bytes < 2 ^ 64
    → ((initialize rbuf element_size_bytes (2 ^ order) bytes).0 ≡ 0)
      × IsValid order (initialize rbuf element_size_bytes (2 ^ order) bytes).1
      × (used (initialize rbuf element_size_bytes (2 ^ order) bytes).1 ≡ 0)
unfolding initialize
initialize-IsValid rbuf element_size_bytes order bytes h pos len fits =
    let m = mask_values order h in
    let passes : bit_and (sub_size (2 ^ order) 1) (2 ^ order) ≡ 0 =
      ap (λ n. bit_and n (2 ^ order)) m.0 ∙ pred_test-pow order in
    rw passes (
      refl,
      record {
        order_le = h;
        element_pos = pos;
        size_eq = refl;
        big_mask_eq = m.1;
        small_mask_eq = m.0;
        write_lt = omega (arith, pow_facts order h);
        read_lt = omega (arith, pow_facts order h);
        used_le = omega arith;
        storage = len;
        fits = fits;
      },
      refl,
    )

-- A buffer that was accepted has the element size asked for.
pub element_size-initialize :
    (rbuf : RingBuffer) (element_size_bytes element_count : ℕ) (bytes : List ℕ)
    → (initialize rbuf element_size_bytes element_count bytes).0 ≡ 0
    → (initialize rbuf element_size_bytes element_count bytes).1.element_size_bytes
      ≡ element_size_bytes
unfolding initialize
element_size-initialize rbuf element_size_bytes element_count bytes h = ground arith

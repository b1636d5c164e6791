-- ===== src/RingBuffer/Advance.antt =====
-- Where the masked indices point, and what advancing an index does to the elements stored.
use rawr.Common.{ℕ, ◌+◌, ◌-◌, ◌*◌, ◌%◌, ◌^◌, ◌≤◌, ◌<◌, ◌≡◌, sym, ap, ◌∙◌, arith}
use rawr.Common.{bit_and, add_size, ◌⊎◌, inl, inr}
use rawr.Common.Bits.{bit_and_mask}
use rawr.RingBuffer.{RingBuffer}
use rawr.RingBuffer.{advance_write_index, advance_read_index}
use rawr.RingBuffer.Masks.{moved, add_masked}
use rawr.RingBuffer.Invariant.{IsValid, used, room}
use native.Mathlib.Nat.{mod-eq_of_lt, mod-eq-sub-mod}
use native.Mathlib.Decide.{dec_lt}

-- `index & smallMask` is the index less one turn, if it has made one.
pub small_masked :
    (order i m n : ℕ)
    → m ≡ 2 ^ order - 1
    → n ≡ 2 ^ order
    → i < 2 * n
    → (bit_and i m < n) × ((bit_and i m ≡ i) ⊎ (bit_and i m + n ≡ i))
small_masked order i m n em en h =
    let e : bit_and i m ≡ i % n =
      ap (bit_and i) em ∙ bit_and_mask order i ∙ ap (λ k. i % k) (sym en) in
    elim (dec_lt i n) [
      | yes p ↦ (omega (arith, e, mod-eq_of_lt p), inl (e ∙ mod-eq_of_lt p))
      | no p ↦
          let r : i % n ≡ i - n =
            mod-eq-sub-mod {n = i} {m = n} (omega arith) ∙ mod-eq_of_lt {n = i - n} (omega arith) in
          (omega (arith, e, r), inr (omega (arith, e, r)))
    ]

module _ {order : ℕ} {rbuf : RingBuffer} (v : IsValid order rbuf) (n : ℕ) where
  write_moved :
      n ≤ room rbuf
      → (advance_write_index rbuf n).write_index ≡ moved (2 * rbuf.buffer_size) rbuf.write_index n
  unfolding advance_write_index
  write_moved h =
      ap (bit_and (add_size rbuf.write_index n)) v.big_mask_eq
      ∙ add_masked order rbuf.write_index n v.order_le (omega (arith, v.size_eq, v.write_lt))
          (omega (arith, v.size_eq))
      ∙ ap (λ k. moved (2 * k) rbuf.write_index n) (sym v.size_eq)

  read_moved :
      n ≤ used rbuf
      → (advance_read_index rbuf n).read_index ≡ moved (2 * rbuf.buffer_size) rbuf.read_index n
  unfolding advance_read_index
  read_moved h =
      ap (bit_and (add_size rbuf.read_index n)) v.big_mask_eq
      ∙ add_masked order rbuf.read_index n v.order_le (omega (arith, v.size_eq, v.read_lt))
          (omega (arith, v.size_eq, v.used_le))
      ∙ ap (λ k. moved (2 * k) rbuf.read_index n) (sym v.size_eq)

  -- Advancing the write index by what fits stores that many elements more.
  pub used-advance_write : n ≤ room rbuf → used (advance_write_index rbuf n) ≡ used rbuf + n
  unfolding advance_write_index
  used-advance_write h = ground (arith, write_moved h, v.write_lt, v.read_lt, v.used_le)

  pub advance_write-IsValid : n ≤ room rbuf → IsValid order (advance_write_index rbuf n)
  unfolding advance_write_index
  advance_write-IsValid h = record {
    order_le = v.order_le;
    element_pos = v.element_pos;
    size_eq = v.size_eq;
    big_mask_eq = v.big_mask_eq;
    small_mask_eq = v.small_mask_eq;
    write_lt = ground (arith, write_moved h, v.write_lt);
    read_lt = v.read_lt;
    used_le = omega (arith, used-advance_write h, v.used_le);
    storage = v.storage;
    fits = v.fits;
  }

  -- Advancing the read index by what is there leaves that many elements less.
  pub used-advance_read : n ≤ used rbuf → used (advance_read_index rbuf n) + n ≡ used rbuf
  unfolding advance_read_index
  used-advance_read h = ground (arith, read_moved h, v.write_lt, v.read_lt, v.used_le)

  pub advance_read-IsValid : n ≤ used rbuf → IsValid order (advance_read_index rbuf n)
  unfolding advance_read_index
  advance_read-IsValid h = record {
    order_le = v.order_le;
    element_pos = v.element_pos;
    size_eq = v.size_eq;
    big_mask_eq = v.big_mask_eq;
    small_mask_eq = v.small_mask_eq;
    write_lt = v.write_lt;
    read_lt = ground (arith, read_moved h, v.read_lt);
    used_le = omega (arith, used-advance_read h, v.used_le);
    storage = v.storage;
    fits = v.fits;
  }

  -- The read index moves on by whole elements, up to whole turns of the indices.
  pub read_index-advance_read :
      n ≤ used rbuf
      → ((advance_read_index rbuf n).read_index ≡ rbuf.read_index + n)
        ⊎ ((advance_read_index rbuf n).read_index + 2 * rbuf.buffer_size ≡ rbuf.read_index + n)
  unfolding advance_read_index
  read_index-advance_read h = ground (arith, read_moved h)

-- ===== src/RingBuffer/Write/Fill.antt =====
-- The copy of `rawr_RingBuffer_Write`: the bytes given stand behind the buffer's content before the
-- write index shows them, and the content is untouched until then.
use rawr.Common.{ℕ, ◌+◌, ◌-◌, ◌*◌, ◌^◌, ◌≤◌, ◌<◌, ◌≡◌, sym, ap, ◌∙◌, arith}
use rawr.Common.{List, ◌++◌, some, length, take, bit_and}
use rawr.Common.{◌⊎◌, inl, inr, length-take, take-drop-take}
use rawr.Common.Memory.{slice, splice, memcpy-some, length-splice, length-slice}
use rawr.RingBuffer.{RingBuffer, split_regions, copy_in, advance_write_index}
use rawr.RingBuffer.Invariant.{IsValid, used, room, size_bytes, contents}
use rawr.RingBuffer.Bounds.{byte_bounds, split_regions_whole, split_regions_round}
use rawr.RingBuffer.Copy.{IsStored, splice-IsStored, splice_twice-IsStored}
use rawr.RingBuffer.Copy.{before_kept, window-stored}
use rawr.RingBuffer.Advance.{small_masked, used-advance_write}
use rawr.RingBuffer.Window.{window}
use native.Mathlib.Decide.{dec_lt}
use native.Mathlib.Nat.{mul-le-mul_right, mul-lt-mul_of_pos_right}

module _ {order : ℕ} {rbuf : RingBuffer} (v : IsValid order rbuf) (bytes : List ℕ) (index count : ℕ)
    (inside : index < rbuf.buffer_size) (few : count ≤ rbuf.buffer_size)
    (given : count * rbuf.element_size_bytes ≤ length bytes) where
  abbrev e : ℕ
  e = rbuf.element_size_bytes

  abbrev new : List ℕ
  new = take (count * e) bytes

  length-new : length new ≡ count * e
  length-new = omega (arith, length-take (count * e) bytes)

  byte_facts :
      (index * e < size_bytes rbuf)
      × (count * e ≤ size_bytes rbuf)
      × (size_bytes rbuf < 2 ^ 64)
      × (length rbuf.buffer ≡ size_bytes rbuf)
  byte_facts = let b = byte_bounds v index count inside few in (b.0, b.1, b.2, v.storage)

  -- One copy where the region does not reach the end.
  copy_in_whole :
      index + count ≤ rbuf.buffer_size
      → copy_in rbuf bytes (split_regions rbuf index count)
        ≡ some (splice rbuf.buffer (index * e) new)
  unfolding copy_in
  copy_in_whole h =
      let in_block : (index + count) * e ≤ size_bytes rbuf = mul-le-mul_right e h in
      rw (split_regions_whole v index count inside few h)
        (ground (arith, byte_facts, memcpy-some rbuf.buffer (index * e) bytes 0 (count * e)))

  -- Two copies where it goes round the end: `n1` elements up to the end, `n2` from the start.
  copy_in_round :
      (n1 n2 : ℕ)
      → index + n1 ≡ rbuf.buffer_size
      → n1 + n2 ≡ count
      → 0 < n2
      → copy_in rbuf bytes (split_regions rbuf index count)
        ≡ some (
            splice
              (splice rbuf.buffer (index * e) (slice bytes 0 (n1 * e)))
              0
              (slice bytes (n1 * e) (n2 * e)))
  unfolding copy_in
  copy_in_round n1 n2 h1 h2 pos =
      let b1 : index * e + n1 * e ≡ size_bytes rbuf = omega (arith, ap (λ n. n * e) h1) in
      let b2 : n1 * e + n2 * e ≡ count * e = omega (arith, ap (λ n. n * e) h2) in
      let first = splice rbuf.buffer (index * e) (slice bytes 0 (n1 * e)) in
      let s1 : rbuf.buffer_size - index ≡ n1 = omega (arith, h1) in
      let s2 : count - n1 ≡ n2 = omega (arith, h2) in
      rw (split_regions_round v index count inside few (omega arith), s1, s2)
        (ground (
          arith,
          byte_facts,
          b1,
          b2,
          length-slice bytes 0 (n1 * e),
          length-splice rbuf.buffer (index * e) (slice bytes 0 (n1 * e)),
          memcpy-some rbuf.buffer (index * e) bytes 0 (n1 * e),
          memcpy-some first 0 bytes (n1 * e) (n2 * e),
        ))

  round-IsStored :
      (n1 n2 : ℕ)
      → index + n1 ≡ rbuf.buffer_size
      → n1 + n2 ≡ count
      → IsStored (size_bytes rbuf) (index * e) new rbuf.buffer (
          splice
            (splice rbuf.buffer (index * e) (slice bytes 0 (n1 * e)))
            0
            (slice bytes (n1 * e) (n2 * e)))
  round-IsStored n1 n2 h1 h2 =
      let b1 : index * e + n1 * e ≡ size_bytes rbuf = omega (arith, ap (λ n. n * e) h1) in
      let b2 : n1 * e + n2 * e ≡ count * e = omega (arith, ap (λ n. n * e) h2) in
      rw
        (
          sym (take-drop-take 0 (n1 * e) (count * e) bytes (omega arith)),
          sym (take-drop-take (n1 * e) (n2 * e) (count * e) bytes (omega arith)),
        )
        (splice_twice-IsStored (size_bytes rbuf) (index * e) rbuf.buffer new byte_facts.0
          (omega (arith, v.storage)) (n1 * e) (n2 * e) b1 (length-new ∙ sym b2)
          (omega (arith, byte_facts)))

  -- Either way the bytes given are stored from the index on.
  copy_in_lem :
      (after : List ℕ) × (copy_in rbuf bytes (split_regions rbuf index count) ≡ some after)
      × IsStored (size_bytes rbuf) (index * e) new rbuf.buffer after
  copy_in_lem = elim (dec_lt rbuf.buffer_size (index + count)) [
    | yes round ↦
        let n1 : ℕ = rbuf.buffer_size - index in
        let n2 : ℕ = count - n1 in
        let h1 : index + n1 ≡ rbuf.buffer_size = omega arith in
        let h2 : n1 + n2 ≡ count = omega arith in
        (_, copy_in_round n1 n2 h1 h2 (omega arith), round-IsStored n1 n2 h1 h2)
    | no whole ↦
        let in_block : (index + count) * e ≤ size_bytes rbuf = mul-le-mul_right e (omega arith) in
        (
          _,
          copy_in_whole (omega arith),
          splice-IsStored (size_bytes rbuf) (index * e) rbuf.buffer new byte_facts.0
              (omega (arith, v.storage)) (omega (arith, length-new)),
        )
  ]

module _ {order : ℕ} {rbuf : RingBuffer} (v : IsValid order rbuf) (bytes : List ℕ) (n : ℕ)
    (fits : n ≤ room rbuf) (given : n * rbuf.element_size_bytes ≤ length bytes) where
  abbrev masked_index : ℕ
  masked_index = bit_and rbuf.write_index rbuf.small_mask

  abbrev size : ℕ
  size = rbuf.element_size_bytes

  index_facts :
      (masked_index < rbuf.buffer_size)
      × ((masked_index ≡ rbuf.write_index) ⊎ (masked_index + rbuf.buffer_size ≡ rbuf.write_index))
  index_facts =
      small_masked order rbuf.write_index rbuf.small_mask rbuf.buffer_size v.small_mask_eq v.size_eq
        v.write_lt

  pub stored :
      (after : List ℕ) × (copy_in rbuf bytes (split_regions rbuf masked_index n) ≡ some after)
      × IsStored (size_bytes rbuf) (masked_index * size) (take (n * size) bytes) rbuf.buffer after
  stored = copy_in_lem v bytes masked_index n index_facts.0 (omega arith) given

  -- The write position, counted from the read position, up to whole turns.
  position : (turns : ℕ) × (masked_index + turns * rbuf.buffer_size ≡ rbuf.read_index + used rbuf)
  position = elim index_facts.1 [
    | inl same ↦ elim (dec_lt rbuf.write_index rbuf.read_index) [
      | yes p ↦ (2, ground (arith, same, v.read_lt))
      | no p ↦ (0, ground (arith, same))
    ]
    | inr turn ↦ elim (dec_lt rbuf.write_index rbuf.read_index) [
      | yes p ↦ (3, ground (arith, turn, v.read_lt))
      | no p ↦ (1, ground (arith, turn))
    ]
  ]

  -- The buffer with the bytes in it and the index not yet advanced.
  abbrev pub filled : RingBuffer
  filled = record rbuf { buffer = stored.0 }

  pub filled-IsValid : IsValid order filled
  filled-IsValid = record {
    order_le = v.order_le;
    element_pos = v.element_pos;
    size_eq = v.size_eq;
    big_mask_eq = v.big_mask_eq;
    small_mask_eq = v.small_mask_eq;
    write_lt = v.write_lt;
    read_lt = v.read_lt;
    used_le = v.used_le;
    storage = stored.2.same_length ∙ v.storage;
    fits = omega (arith, stored.2.same_length, v.fits);
  }

  length-new_bytes : length (take (n * size) bytes) ≡ n * size
  length-new_bytes = omega (arith, length-take (n * size) bytes, given)

  -- The new bytes and the content fit into the buffer, and the new ones stand where it ends.
  places :
      (used rbuf * size + length (take (n * size) bytes) ≤ size_bytes rbuf)
      × (masked_index * size + position.0 * size_bytes rbuf
          ≡ rbuf.read_index * size + used rbuf * size)
  places =
      let total : (used rbuf + n) * size ≤ size_bytes rbuf =
        mul-le-mul_right size (omega (arith, v.used_le)) in
      (omega (arith, length-new_bytes, total), omega (arith, ap (λ k. k * size) position.1))

  index_in_bytes : masked_index * size < size_bytes rbuf
  index_in_bytes = mul-lt-mul_of_pos_right index_facts.0 v.element_pos

  -- The copy leaves the content as it was.
  pub contents-filled : contents filled ≡ contents rbuf
  contents-filled =
      before_kept (size_bytes rbuf) (masked_index * size) (used rbuf * size)
        (rbuf.read_index * size) position.0 (take (n * size) bytes) rbuf.buffer stored.0 stored.2
        index_in_bytes places.0 places.1

  -- The advanced index shows the new bytes behind it.
  pub contents-advance_write :
      contents (advance_write_index filled n) ≡ contents rbuf ++ take (n * size) bytes
  unfolding advance_write_index
  contents-advance_write =
      ap (λ k. window stored.0 (size_bytes rbuf) (rbuf.read_index * size) (k * size))
        (used-advance_write filled-IsValid n fits)
      ∙ ap (window stored.0 (size_bytes rbuf) (rbuf.read_index * size)) {x = (used rbuf + n) * size}
          {y = used rbuf * size + length (take (n * size) bytes)} (omega (arith, length-new_bytes))
      ∙ window-stored (size_bytes rbuf) (masked_index * size) (used rbuf * size)
          (rbuf.read_index * size) position.0 (take (n * size) bytes) rbuf.buffer stored.0 stored.2
          index_in_bytes places.0 places.1

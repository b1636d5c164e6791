-- ===== src/RingBuffer/Read/Take.antt =====
-- The copy of `rawr_RingBuffer_Read`: it takes the oldest bytes of the content, which the read index
-- then leaves out.
use rawr.Common.{ℕ, ◌+◌, ◌-◌, ◌*◌, ◌%◌, ◌^◌, ◌≤◌, ◌<◌, ◌≡◌, sym, ap, ◌∙◌, arith}
use rawr.Common.{List, some, length, take, drop, bit_and, ◌⊎◌, inl, inr}
use rawr.Common.Memory.{slice, splice, memcpy-some, length-splice, length-slice, splice-splice}
use rawr.RingBuffer.{RingBuffer, split_regions, copy_out, advance_read_index}
use rawr.RingBuffer.Invariant.{IsValid, used, size_bytes, contents}
use rawr.RingBuffer.Bounds.{byte_bounds, split_regions_whole, split_regions_round}
use rawr.RingBuffer.Copy.{window-two_slices}
use rawr.RingBuffer.Advance.{small_masked, used-advance_read, read_index-advance_read}
use rawr.RingBuffer.Window.{window, window-mod, window-slice, take-window, drop-window}
use native.Mathlib.Decide.{dec_lt}
use native.Mathlib.Nat.{mul-le-mul_right, add-mul-mod_self_right}

module _ {order : ℕ} {rbuf : RingBuffer} (v : IsValid order rbuf) (bytes : List ℕ) (index count : ℕ)
    (inside : index < rbuf.buffer_size) (few : count ≤ rbuf.buffer_size)
    (space : count * rbuf.element_size_bytes ≤ length bytes) where
  abbrev e : ℕ
  e = rbuf.element_size_bytes

  byte_facts :
      (index * e < size_bytes rbuf)
      × (count * e ≤ size_bytes rbuf)
      × (size_bytes rbuf < 2 ^ 64)
      × (length rbuf.buffer ≡ size_bytes rbuf)
  byte_facts = let b = byte_bounds v index count inside few in (b.0, b.1, b.2, v.storage)

  copy_out_whole :
      index + count ≤ rbuf.buffer_size
      → copy_out rbuf bytes (split_regions rbuf index count)
        ≡ some (splice bytes 0 (window rbuf.buffer (size_bytes rbuf) (index * e) (count * e)))
  unfolding copy_out
  copy_out_whole h =
      let in_block : (index + count) * e ≤ size_bytes rbuf = mul-le-mul_right e h in
      rw
        (
          split_regions_whole v index count inside few h,
          window-slice rbuf.buffer (size_bytes rbuf) (index * e) (count * e) (omega arith)
              (omega (arith, v.storage)),
        )
        (ground (arith, byte_facts, memcpy-some bytes 0 rbuf.buffer (index * e) (count * e)))

  copy_out_round :
      (n1 n2 : ℕ)
      → index + n1 ≡ rbuf.buffer_size
      → n1 + n2 ≡ count
      → 0 < n2
      → copy_out rbuf bytes (split_regions rbuf index count)
        ≡ some (splice bytes 0 (window rbuf.buffer (size_bytes rbuf) (index * e) (count * e)))
  unfolding copy_out
  copy_out_round n1 n2 h1 h2 pos =
      let b1 : index * e + n1 * e ≡ size_bytes rbuf = omega (arith, ap (λ n. n * e) h1) in
      let b2 : count * e ≡ n1 * e + n2 * e = omega (arith, ap (λ n. n * e) h2) in
      let first = slice rbuf.buffer (index * e) (n1 * e) in
      let second = slice rbuf.buffer 0 (n2 * e) in
      let len1 : length first ≡ n1 * e =
        length-slice rbuf.buffer (index * e) (n1 * e) (omega (arith, v.storage)) in
      let s1 : rbuf.buffer_size - index ≡ n1 = omega (arith, h1) in
      let s2 : count - n1 ≡ n2 = omega (arith, h2) in
      rw
        (
          split_regions_round v index count inside few (omega arith),
          s1,
          s2,
          b2,
          window-two_slices rbuf.buffer (size_bytes rbuf) (index * e) (n1 * e) (n2 * e) b1
              (omega (arith, byte_facts)) (omega (arith, v.storage)),
          sym (splice-splice bytes first second),
        )
        (ground (
          arith,
          byte_facts,
          b1,
          b2,
          len1,
          length-splice bytes 0 first,
          memcpy-some bytes 0 rbuf.buffer (index * e) (n1 * e),
          memcpy-some (splice bytes 0 first) (n1 * e) rbuf.buffer 0 (n2 * e),
        ))

  copy_out_lem :
      copy_out rbuf bytes (split_regions rbuf index count)
      ≡ some (splice bytes 0 (window rbuf.buffer (size_bytes rbuf) (index * e) (count * e)))
  copy_out_lem = elim (dec_lt rbuf.buffer_size (index + count)) [
    | yes round ↦
        copy_out_round (rbuf.buffer_size - index) (count - (rbuf.buffer_size - index)) (omega arith)
          (omega arith) (omega arith)
    | no whole ↦ copy_out_whole (omega arith)
  ]

module _ {order : ℕ} {rbuf : RingBuffer} (v : IsValid order rbuf) (n : ℕ)
    (there : n ≤ used rbuf) where
  abbrev masked_index : ℕ
  masked_index = bit_and rbuf.read_index rbuf.small_mask

  abbrev size : ℕ
  size = rbuf.element_size_bytes

  index_facts :
      (masked_index < rbuf.buffer_size)
      × ((masked_index ≡ rbuf.read_index) ⊎ (masked_index + rbuf.buffer_size ≡ rbuf.read_index))
  index_facts =
      small_masked order rbuf.read_index rbuf.small_mask rbuf.buffer_size v.small_mask_eq v.size_eq
        v.read_lt

  -- The masked index and the index stand for one position.
  same_position :
      (masked_index * size) % size_bytes rbuf ≡ (rbuf.read_index * size) % size_bytes rbuf
  same_position = elim index_facts.1 [
    | inl same ↦ ap (λ i. (i * size) % size_bytes rbuf) same
    | inr turn ↦
        sym (add-mul-mod_self_right (masked_index * size) 1 (size_bytes rbuf))
        ∙ ap (λ i. i % size_bytes rbuf) {x = masked_index * size + 1 * size_bytes rbuf}
            {y = rbuf.read_index * size} (omega (arith, ap (λ i. i * size) turn))
  ]

  n_bytes : n * size ≤ used rbuf * size
  n_bytes = mul-le-mul_right size there

  oldest :
      window rbuf.buffer (size_bytes rbuf) (masked_index * size) (n * size)
      ≡ take (n * size) (contents rbuf)
  oldest =
      window-mod rbuf.buffer (size_bytes rbuf) (masked_index * size) (rbuf.read_index * size)
        (n * size) same_position
      ∙ sym (
          take-window rbuf.buffer (size_bytes rbuf) (rbuf.read_index * size) (n * size)
            (used rbuf * size) n_bytes)

  -- The copy gives the oldest bytes.
  pub copy_out-oldest :
      (bytes : List ℕ)
      → n * size ≤ length bytes
      → copy_out rbuf bytes (split_regions rbuf masked_index n)
        ≡ some (splice bytes 0 (take (n * size) (contents rbuf)))
  copy_out-oldest bytes space =
      copy_out_lem v bytes masked_index n index_facts.0 (omega (arith, v.used_le)) space
      ∙ ap (λ w. some (splice bytes 0 w)) oldest

  -- The advanced index stands for the position behind the bytes read.
  next_position :
      ((advance_read_index rbuf n).read_index * size) % size_bytes rbuf
      ≡ (rbuf.read_index * size + n * size) % size_bytes rbuf
  next_position = elim (read_index-advance_read v n there) [
    | inl on ↦ ap (λ i. i % size_bytes rbuf) (omega (arith, ap (λ i. i * size) on))
    | inr round ↦
        let next = (advance_read_index rbuf n).read_index in
        sym (add-mul-mod_self_right (next * size) 2 (size_bytes rbuf))
        ∙ ap (λ i. i % size_bytes rbuf) {x = next * size + 2 * size_bytes rbuf}
            {y = rbuf.read_index * size + n * size} (omega (arith, ap (λ i. i * size) round))
  ]

  -- The advanced index leaves the bytes behind them.
  pub contents-advance_read : contents (advance_read_index rbuf n) ≡ drop (n * size) (contents rbuf)
  contents-advance_read =
      let start = rbuf.read_index * size in
      let after = advance_read_index rbuf n in
      let left : used after * size ≡ used rbuf * size - n * size =
        omega (arith, ap (λ n. n * size) (used-advance_read v n there)) in
      unfold advance_read_index in
      (window-mod rbuf.buffer (size_bytes rbuf) (after.read_index * size) (start + n * size)
          (used after * size) next_position
        ∙ ap (window rbuf.buffer (size_bytes rbuf) (start + n * size)) left
        ∙ sym
            (drop-window rbuf.buffer (size_bytes rbuf) start (n * size) (used rbuf * size) n_bytes))

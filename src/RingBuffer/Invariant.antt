-- ===== src/RingBuffer/Invariant.antt =====
-- The representation invariant of `rawr_RingBuffer`, the content that it stands for, and the two
-- counts that the functions compute.
use rawr.Common.{ℕ, suc, ◌-◌, ◌*◌, ◌^◌, ◌≤◌, ◌<◌, ◌≡◌, sym, ap, ◌∙◌, arith}
use rawr.Common.{List, length, bit_and, sub_size}
use rawr.RingBuffer.{RingBuffer, get_read_available, get_write_available}
use rawr.RingBuffer.Masks.{ahead, pow_facts, sub_masked}
use rawr.RingBuffer.Window.{window, length-window}

-- A buffer of `2 ^ order` elements. The indices run over twice that, so that a full buffer differs
-- from an empty one.
pub record IsValid (order : ℕ) (rbuf : RingBuffer) : Type 0 where
  pub order_le : order ≤ 63
  pub element_pos : 0 < rbuf.element_size_bytes
  pub size_eq : rbuf.buffer_size ≡ 2 ^ order
  pub big_mask_eq : rbuf.big_mask ≡ 2 ^ suc order - 1
  pub small_mask_eq : rbuf.small_mask ≡ 2 ^ order - 1
  pub write_lt : rbuf.write_index < 2 * rbuf.buffer_size
  pub read_lt : rbuf.read_index < 2 * rbuf.buffer_size
  pub used_le : ahead (2 * rbuf.buffer_size) rbuf.write_index rbuf.read_index ≤ rbuf.buffer_size
  pub storage : length rbuf.buffer ≡ rbuf.buffer_size * rbuf.element_size_bytes
  pub fits : length rbuf.buffer < 2 ^ 64

-- The elements stored, by the indices.
abbrev pub used : RingBuffer → ℕ
used rbuf = ahead (2 * rbuf.buffer_size) rbuf.write_index rbuf.read_index

abbrev pub size_bytes : RingBuffer → ℕ
size_bytes rbuf = rbuf.buffer_size * rbuf.element_size_bytes

-- The bytes stored, oldest first.
abbrev pub contents : RingBuffer → List ℕ
contents rbuf =
    window rbuf.buffer (size_bytes rbuf) (rbuf.read_index * rbuf.element_size_bytes)
      (used rbuf * rbuf.element_size_bytes)

-- The room left, in elements.
abbrev pub room : RingBuffer → ℕ
room rbuf = rbuf.buffer_size - used rbuf

pub length-contents :
    (rbuf : RingBuffer) → length (contents rbuf) ≡ used rbuf * rbuf.element_size_bytes
length-contents rbuf =
    length-window rbuf.buffer (size_bytes rbuf) (rbuf.read_index * rbuf.element_size_bytes)
      (used rbuf * rbuf.element_size_bytes)

pub get_read_available_lem :
    {order : ℕ} {rbuf : RingBuffer} → IsValid order rbuf → get_read_available rbuf ≡ used rbuf
unfolding get_read_available
get_read_available_lem {order} {rbuf} v =
    ap (bit_and (sub_size w r)) v.big_mask_eq
    ∙ sub_masked order w r v.order_le (omega (arith, v.size_eq, v.write_lt))
        (omega (arith, v.size_eq, v.read_lt))
    ∙ ap (λ n. ahead (2 * n) w r) (sym v.size_eq)
  where
    w : ℕ
    w = rbuf.write_index

    r : ℕ
    r = rbuf.read_index

pub get_write_available_lem :
    {order : ℕ} {rbuf : RingBuffer} → IsValid order rbuf → get_write_available rbuf ≡ room rbuf
unfolding get_write_available
get_write_available_lem {order} {rbuf} v =
    omega (arith, get_read_available_lem v, v.used_le, v.size_eq, pow_facts order v.order_le)

-- ===== src/RingBuffer/Bounds.antt =====
-- The regions that `rawr_RingBuffer_GetWriteRegions` and `rawr_RingBuffer_GetReadRegions` hand out:
-- no multiplication or addition of theirs wraps, and both lie inside the buffer.
use rawr.Common.{ℕ, ◌+◌, ◌-◌, ◌*◌, ◌^◌, ◌≤◌, ◌<◌, ◌≡◌, arith, none, some}
use rawr.RingBuffer.{RingBuffer, split_regions}
use rawr.RingBuffer.Invariant.{IsValid, size_bytes}
use rawr.RingBuffer.Masks.{pow_facts}
use native.Mathlib.Nat.{mul-le-mul_right, mul-lt-mul_of_pos_right}

module _ {order : ℕ} {rbuf : RingBuffer} (v : IsValid order rbuf) (index count : ℕ)
    (inside : index < rbuf.buffer_size) (few : count ≤ rbuf.buffer_size) where
  -- The bytes in front of an element, and those of so many elements.
  pub byte_bounds :
      (index * rbuf.element_size_bytes < size_bytes rbuf)
      × (count * rbuf.element_size_bytes ≤ size_bytes rbuf)
      × (size_bytes rbuf < 2 ^ 64)
      × (rbuf.buffer_size ≤ 2 ^ 63)
  byte_bounds = (
    mul-lt-mul_of_pos_right inside v.element_pos,
    mul-le-mul_right rbuf.element_size_bytes few,
    omega (arith, v.storage, v.fits),
    omega (arith, v.size_eq, pow_facts order v.order_le),
  )

  pub split_regions_whole :
      index + count ≤ rbuf.buffer_size
      → split_regions rbuf index count ≡ record {
        count = count;
        data1 = index * rbuf.element_size_bytes;
        size1 = count;
        data2 = none;
        size2 = 0;
      }
  unfolding split_regions
  split_regions_whole h = ground (arith, byte_bounds, inside, few)

  pub split_regions_round :
      rbuf.buffer_size < index + count
      → split_regions rbuf index count ≡ record {
        count = count;
        data1 = index * rbuf.element_size_bytes;
        size1 = rbuf.buffer_size - index;
        data2 = some 0;
        size2 = count - (rbuf.buffer_size - index);
      }
  unfolding split_regions
  split_regions_round h = ground (arith, byte_bounds, inside, few)

-- The function returns the count that it was left with after clamping.
pub count-split_regions :
    (rbuf : RingBuffer) (index count : ℕ) → (split_regions rbuf index count).count ≡ count
unfolding split_regions
count-split_regions rbuf index count = ground arith

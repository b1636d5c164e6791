-- ===== src/RingBuffer/Write.antt =====
-- `rawr_RingBuffer_Write` appends to the buffer's content what fits, and nothing else.
pub mod Fill
use rawr.Common.{ℕ, ◌+◌, ◌-◌, ◌*◌, ◌^◌, ◌≤◌, ◌<◌, ◌≡◌, refl, sym, ap, ◌∙◌, arith}
use rawr.Common.{List, ◌++◌, some, min, length, take, bit_and}
use rawr.RingBuffer.{RingBuffer, write, get_write_regions, clamp}
use rawr.RingBuffer.{advance_write_index, get_write_available}
use rawr.RingBuffer.Invariant.{IsValid, used, room, contents}
use rawr.RingBuffer.Invariant.{get_write_available_lem}
use rawr.RingBuffer.Bounds.{count-split_regions}
use rawr.RingBuffer.Advance.{used-advance_write, advance_write-IsValid}
use rawr.RingBuffer.Write.Fill.{stored, filled, filled-IsValid, contents-advance_write}
use native.Mathlib.Nat.{mul-le-mul_right, le_trans}

-- What a write of `count` elements leaves behind.
pub record Written (order : ℕ) (rbuf : RingBuffer) (bytes : List ℕ) (count : ℕ) : Type 0 where
  pub after : RingBuffer
  pub returns : write rbuf bytes count ≡ some (min count (room rbuf), after)
  pub valid : IsValid order after
  pub same_size :
      (after.buffer_size ≡ rbuf.buffer_size) × (after.element_size_bytes ≡ rbuf.element_size_bytes)
  pub used_after : used after ≡ used rbuf + min count (room rbuf)
  pub appended :
      contents after ≡ contents rbuf ++ take (min count (room rbuf) * rbuf.element_size_bytes) bytes

module _ {order : ℕ} {rbuf : RingBuffer} (v : IsValid order rbuf) (bytes : List ℕ) (count : ℕ)
    (given : count * rbuf.element_size_bytes ≤ length bytes) where
  abbrev fitting : ℕ
  fitting = min count (room rbuf)

  clamp_lem : clamp count (get_write_available rbuf) ≡ fitting
  clamp_lem = ground (arith, get_write_available_lem v)

  fitting_le : fitting ≤ room rbuf
  fitting_le = omega arith

  given_fitting : fitting * rbuf.element_size_bytes ≤ length bytes
  given_fitting = le_trans (mul-le-mul_right rbuf.element_size_bytes (omega arith)) given

  abbrev stored_ring : RingBuffer
  stored_ring = filled v bytes fitting fitting_le given_fitting

  stored_ring-IsValid : IsValid order stored_ring
  stored_ring-IsValid = filled-IsValid v bytes fitting fitting_le given_fitting

  write_returns : write rbuf bytes count ≡ some (fitting, advance_write_index stored_ring fitting)
  unfolding write get_write_regions
  write_returns = rw (
    clamp_lem,
    (stored v bytes fitting fitting_le given_fitting).1,
    count-split_regions rbuf (bit_and rbuf.write_index rbuf.small_mask) fitting,
  )

  -- A write into a valid buffer, from an array that holds the elements counted, stays inside both,
  -- stores as many elements as fit behind those stored, returns their number and keeps the buffer
  -- valid.
  pub write-Written : Written order rbuf bytes count
  write-Written = record {
    after = advance_write_index stored_ring fitting;
    returns = write_returns;
    valid = advance_write-IsValid stored_ring-IsValid fitting fitting_le;
    same_size = unfold advance_write_index in (refl, refl);
    used_after = used-advance_write stored_ring-IsValid fitting fitting_le;
    appended = contents-advance_write v bytes fitting fitting_le given_fitting;
  }

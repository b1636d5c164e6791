-- ===== src/RingBuffer/Read.antt =====
-- `rawr_RingBuffer_Read` takes the oldest bytes off the buffer's content, and nothing else.
pub mod Take
use rawr.Common.{ℕ, ◌+◌, ◌-◌, ◌*◌, ◌%◌, ◌^◌, ◌≤◌, ◌<◌, ◌≡◌, refl, sym, ap, ◌∙◌, arith}
use rawr.Common.{List, some, min, length, take, drop, bit_and}
use rawr.Common.Memory.{splice}
use rawr.RingBuffer.{RingBuffer, read, get_read_regions, clamp}
use rawr.RingBuffer.{advance_read_index, get_read_available}
use rawr.RingBuffer.Invariant.{IsValid, used, contents, get_read_available_lem}
use rawr.RingBuffer.Bounds.{count-split_regions}
use rawr.RingBuffer.Advance.{used-advance_read, advance_read-IsValid}
use rawr.RingBuffer.Read.Take.{copy_out-oldest, contents-advance_read}
use native.Mathlib.Nat.{mul-le-mul_right, le_trans}

-- What a read of `count` elements returns and leaves behind; `bytes` is the caller's array.
pub record Taken (order : ℕ) (rbuf : RingBuffer) (bytes : List ℕ) (count : ℕ) : Type 0 where
  pub after : RingBuffer
  pub returns :
      read rbuf bytes count
      ≡ some (
        min count (used rbuf),
        splice bytes 0 (take (min count (used rbuf) * rbuf.element_size_bytes) (contents rbuf)),
        after,
      )
  pub valid : IsValid order after
  pub same_size :
      (after.buffer_size ≡ rbuf.buffer_size) × (after.element_size_bytes ≡ rbuf.element_size_bytes)
  pub used_after : used after + min count (used rbuf) ≡ used rbuf
  pub remaining :
      contents after ≡ drop (min count (used rbuf) * rbuf.element_size_bytes) (contents rbuf)

module _ {order : ℕ} {rbuf : RingBuffer} (v : IsValid order rbuf) (bytes : List ℕ) (count : ℕ)
    (space : count * rbuf.element_size_bytes ≤ length bytes) where
  abbrev present : ℕ
  present = min count (used rbuf)

  present_le : present ≤ used rbuf
  present_le = omega arith

  clamp_lem : clamp count (get_read_available rbuf) ≡ present
  clamp_lem = ground (arith, get_read_available_lem v)

  read_returns :
      read rbuf bytes count
      ≡ some (
        present,
        splice bytes 0 (take (present * rbuf.element_size_bytes) (contents rbuf)),
        advance_read_index rbuf present,
      )
  unfolding read get_read_regions
  read_returns = rw (
    clamp_lem,
    copy_out-oldest v present present_le bytes
        (le_trans (mul-le-mul_right rbuf.element_size_bytes (omega arith)) space),
    count-split_regions rbuf (bit_and rbuf.read_index rbuf.small_mask) present,
  )

  -- A read from a valid buffer, into an array with room for the elements counted, stays inside
  -- both, gives the oldest elements, as many as are wanted and there, returns their number and
  -- keeps the buffer valid with the others in it.
  pub read-Taken : Taken order rbuf bytes count
  read-Taken = record {
    after = advance_read_index rbuf present;
    returns = read_returns;
    valid = advance_read-IsValid v present present_le;
    same_size = unfold advance_read_index in (refl, refl);
    used_after = used-advance_read v present present_le;
    remaining = contents-advance_read v present present_le;
  }

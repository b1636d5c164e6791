-- ===== src/RingBuffer.antt =====
-- src/RingBuffer.c and include/rawr/RingBuffer.h: the single-reader single-writer ring buffer that
-- carries audio samples between the device callback and the call's threads.
-- `size_t` has 64 bits and wraps. A pointer into the buffer is an offset into its bytes; a function
-- that updates `*rbuf` returns the new record beside its result. `memcpy` outside an array is
-- `none`. The memory barriers order the accesses and have no effect of their own here.
pub mod Window
pub mod Masks
pub mod Invariant
pub mod Advance
pub mod Copy
pub mod Init
pub mod Queue
mod Examples
pub mod Bounds
pub mod Write
pub mod Read
pub mod Threads
use rawr.Common.{ℕ, ◌+◌, ◌-◌, ◌<◌, ◌≡◌, Bool, Option, none, some, List, bit_and, min}
use rawr.Common.{ltb, ◌==◌, if◌then◌else◌, add_size, sub_size, mul_size, size_mod}
use rawr.Common.Memory.{memcpy}

pub record RingBuffer : Type 0 where
  pub buffer_size : ℕ
  pub write_index : ℕ
  pub read_index : ℕ
  pub big_mask : ℕ
  pub small_mask : ℕ
  pub element_size_bytes : ℕ
  pub buffer : List ℕ

pub flush : RingBuffer → RingBuffer
flush rbuf = record rbuf { write_index = 0; read_index = 0 }

-- The result -1 is the largest `size_t`.
pub initialize : RingBuffer → ℕ → ℕ → List ℕ → ℕ × RingBuffer
unfolding flush
initialize rbuf element_size_bytes element_count bytes =
    if bit_and (sub_size element_count 1) element_count == 0
    then (
      0,
      record (flush (record rbuf { buffer_size = element_count; buffer = bytes })) {
        big_mask = sub_size (mul_size element_count 2) 1;
        small_mask = sub_size element_count 1;
        element_size_bytes = element_size_bytes;
      },
    )
    else (sub_size 0 1, rbuf)

pub get_read_available : RingBuffer → ℕ
get_read_available rbuf = bit_and (sub_size rbuf.write_index rbuf.read_index) rbuf.big_mask

pub get_write_available : RingBuffer → ℕ
get_write_available rbuf = sub_size rbuf.buffer_size (get_read_available rbuf)

-- What `GetWriteRegions` and `GetReadRegions` return: the count, and the two regions through
-- `dataPtr1`, `sizePtr1`, `dataPtr2` (`none` is NULL) and `sizePtr2`.
pub record Regions : Type 0 where
  pub count : ℕ
  pub data1 : ℕ
  pub size1 : ℕ
  pub data2 : Option ℕ
  pub size2 : ℕ

-- The common part of the two functions, from the clamped count and the masked index on.
pub split_regions : RingBuffer → ℕ → ℕ → Regions
split_regions rbuf index element_count =
    if ltb rbuf.buffer_size (add_size index element_count)
    then record {
      count = element_count;
      data1 = mul_size index rbuf.element_size_bytes;
      size1 = sub_size rbuf.buffer_size index;
      data2 = some 0;
      size2 = sub_size element_count (sub_size rbuf.buffer_size index);
    }
    else record {
      count = element_count;
      data1 = mul_size index rbuf.element_size_bytes;
      size1 = element_count;
      data2 = none;
      size2 = 0;
    }

-- `if (elementCount > available) elementCount = available;`
abbrev pub clamp : ℕ → ℕ → ℕ
clamp element_count available = if ltb available element_count then available else element_count

pub get_write_regions : RingBuffer → ℕ → Regions
get_write_regions rbuf element_count =
    split_regions rbuf (bit_and rbuf.write_index rbuf.small_mask)
      (clamp element_count (get_write_available rbuf))

pub get_read_regions : RingBuffer → ℕ → Regions
get_read_regions rbuf element_count =
    split_regions rbuf (bit_and rbuf.read_index rbuf.small_mask)
      (clamp element_count (get_read_available rbuf))

-- The advanced index is also the function's result.
pub advance_write_index : RingBuffer → ℕ → RingBuffer
advance_write_index rbuf element_count = record rbuf {
  write_index = bit_and (add_size rbuf.write_index element_count) rbuf.big_mask;
}

pub advance_read_index : RingBuffer → ℕ → RingBuffer
advance_read_index rbuf element_count = record rbuf {
  read_index = bit_and (add_size rbuf.read_index element_count) rbuf.big_mask;
}

infixl 5 ◌>>=◌
abbrev ◌>>=◌ {ℓ κ} : {A : Type ℓ} {B : Type κ} → Option A → (A → Option B) → Option B
none >>= f = none
some a >>= f = f a

-- A second region is copied to where it stands; `size2 > 0` never comes with NULL, which would be a
-- fault.
pub copy_in : RingBuffer → List ℕ → Regions → Option (List ℕ)
copy_in rbuf bytes regions =
    let first = mul_size regions.size1 rbuf.element_size_bytes in
    if ltb 0 regions.size2
    then (do
      buffer ← memcpy rbuf.buffer regions.data1 bytes 0 first
      data2 ← regions.data2
      memcpy buffer data2 bytes first (mul_size regions.size2 rbuf.element_size_bytes))
    else memcpy rbuf.buffer regions.data1 bytes 0 first

pub write : RingBuffer → List ℕ → ℕ → Option (ℕ × RingBuffer)
unfolding copy_in
write rbuf bytes element_count = do
  let regions = get_write_regions rbuf element_count
  buffer ← copy_in rbuf bytes regions
  some (regions.count, advance_write_index (record rbuf { buffer = buffer }) regions.count)

pub copy_out : RingBuffer → List ℕ → Regions → Option (List ℕ)
copy_out rbuf bytes regions =
    let first = mul_size regions.size1 rbuf.element_size_bytes in
    if ltb 0 regions.size2
    then (do
      out ← memcpy bytes 0 rbuf.buffer regions.data1 first
      data2 ← regions.data2
      memcpy out first rbuf.buffer data2 (mul_size regions.size2 rbuf.element_size_bytes))
    else memcpy bytes 0 rbuf.buffer regions.data1 first

-- The caller's array `bytes` comes back with what was read in it.
pub read : RingBuffer → List ℕ → ℕ → Option (ℕ × List ℕ × RingBuffer)
unfolding copy_out
read rbuf bytes element_count = do
  let regions = get_read_regions rbuf element_count
  out ← copy_out rbuf bytes regions
  some (regions.count, out, advance_read_index rbuf regions.count)

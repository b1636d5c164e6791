-- ===== src/RingBuffer/Threads/Holds.antt =====
-- What each of the two threads relies on inside a call, and that the other's turns leave it true.
use rawr.Common.{ℕ, ◌*◌, ◌≤◌, ◌≡◌, sym, ap, ◌∙◌, arith}
use rawr.Common.{List, ◌++◌, length, length-take, take_of_length_le, take, drop, bit_and}
use rawr.Common.{take-append_left, drop-append_left}
use rawr.Common.Memory.{splice}
use rawr.RingBuffer.{RingBuffer, split_regions, get_write_regions, get_read_regions, clamp}
use rawr.RingBuffer.{get_write_available, get_read_available}
use rawr.RingBuffer.{advance_write_index, advance_read_index}
use rawr.RingBuffer.Invariant.{length-contents, IsValid, used, room, contents}
use rawr.RingBuffer.Invariant.{get_read_available_lem, get_write_available_lem}
use rawr.RingBuffer.Bounds.{count-split_regions}
use rawr.RingBuffer.Advance.{used-advance_write, advance_write-IsValid}
use rawr.RingBuffer.Advance.{used-advance_read}
use rawr.RingBuffer.Write.Fill.{}
use rawr.RingBuffer.Read.Take.{contents-advance_read}
use rawr.RingBuffer.Threads.{
  Writer, between_writes, copying_in, storing_write, Reader, between_reads, copying_out,
  storing_read, Threads,
}
use native.Mathlib.Nat.{mul-le-mul_right, le_trans}

-- What a writing thread relies on inside a call, whatever the other thread does: there is room for
-- its regions, they are behind the write index, and once copied the advanced index shows its bytes
-- behind the content.
abbrev pub WriterHolds : RingBuffer → Writer → Type 0
WriterHolds rbuf between_writes = Unit
WriterHolds rbuf (copying_in bytes regions) =
    (regions.count ≤ room rbuf)
    × (regions ≡ split_regions rbuf (bit_and rbuf.write_index rbuf.small_mask) regions.count)
    × (regions.count * rbuf.element_size_bytes ≤ length bytes)
WriterHolds rbuf (storing_write bytes n) =
    (n ≤ room rbuf)
    × (n * rbuf.element_size_bytes ≤ length bytes)
    × (contents (advance_write_index rbuf n)
        ≡ contents rbuf ++ take (n * rbuf.element_size_bytes) bytes)

-- The same of a reading thread: its elements are there, and once copied they are the oldest.
abbrev pub ReaderHolds : RingBuffer → Reader → Type 0
ReaderHolds rbuf between_reads = Unit
ReaderHolds rbuf (copying_out bytes regions) =
    (regions.count ≤ used rbuf)
    × (regions ≡ split_regions rbuf (bit_and rbuf.read_index rbuf.small_mask) regions.count)
    × (regions.count * rbuf.element_size_bytes ≤ length bytes)
ReaderHolds rbuf (storing_read out n) =
    (n ≤ used rbuf)
    × (take (n * rbuf.element_size_bytes) out ≡ take (n * rbuf.element_size_bytes) (contents rbuf))

pub record IsRunning (order size : ℕ) (threads : Threads) : Type 0 where
  pub valid : IsValid order threads.rbuf
  pub size_eq : threads.rbuf.element_size_bytes ≡ size
  pub writer_holds : WriterHolds threads.rbuf threads.writer
  pub reader_holds : ReaderHolds threads.rbuf threads.reader
  pub in_order : threads.sent ≡ threads.received ++ contents threads.rbuf

-- The bytes of elements that are there are in the content.
in_contents :
    (rbuf : RingBuffer) {n : ℕ}
    → n ≤ used rbuf
    → n * rbuf.element_size_bytes ≤ length (contents rbuf)
in_contents rbuf {n} h =
    omega (arith, length-contents rbuf, mul-le-mul_right rbuf.element_size_bytes h)

module _ {order : ℕ} {rbuf : RingBuffer} (v : IsValid order rbuf) where
  -- Beginning a call.
  pub begin-write :
      (bytes : List ℕ) (count : ℕ)
      → count * rbuf.element_size_bytes ≤ length bytes
      → WriterHolds rbuf (copying_in bytes (get_write_regions rbuf count))
  unfolding get_write_regions
  begin-write bytes count given =
      let n = clamp count (get_write_available rbuf) in
      let index = bit_and rbuf.write_index rbuf.small_mask in
      let same = count-split_regions rbuf index n in
      let few : n ≤ count = ground arith in
      (
        ground (arith, same, get_write_available_lem v),
        ap (split_regions rbuf index) (sym same),
        rw same (le_trans (mul-le-mul_right rbuf.element_size_bytes few) given),
      )

  pub begin-read :
      (bytes : List ℕ) (count : ℕ)
      → count * rbuf.element_size_bytes ≤ length bytes
      → ReaderHolds rbuf (copying_out bytes (get_read_regions rbuf count))
  unfolding get_read_regions
  begin-read bytes count given =
      let n = clamp count (get_read_available rbuf) in
      let index = bit_and rbuf.read_index rbuf.small_mask in
      let same = count-split_regions rbuf index n in
      let few : n ≤ count = ground arith in
      (
        ground (arith, same, get_read_available_lem v),
        ap (split_regions rbuf index) (sym same),
        rw same (le_trans (mul-le-mul_right rbuf.element_size_bytes few) given),
      )

  -- The writer's copy disturbs no reader.
  pub reader-filled :
      (reader : Reader) (buffer : List ℕ)
      → contents (record rbuf { buffer = buffer }) ≡ contents rbuf
      → ReaderHolds rbuf reader
      → ReaderHolds (record rbuf { buffer = buffer }) reader
  unfolding split_regions
  reader-filled between_reads buffer e h = h
  reader-filled (copying_out bytes regions) buffer e h = h
  reader-filled (storing_read out n) buffer e h =
      (h.0, h.1 ∙ ap (take (n * rbuf.element_size_bytes)) (sym e))

  -- Nor does the index that it stores.
  pub reader-advance_write :
      (reader : Reader) (n : ℕ) (new : List ℕ)
      → n ≤ room rbuf
      → contents (advance_write_index rbuf n) ≡ contents rbuf ++ new
      → ReaderHolds rbuf reader
      → ReaderHolds (advance_write_index rbuf n) reader
  unfolding split_regions advance_write_index
  reader-advance_write between_reads n new fits e h = h
  reader-advance_write (copying_out bytes regions) n new fits e h =
      (omega (arith, h.0, used-advance_write v n fits), h.1, h.2)
  reader-advance_write (storing_read out m) n new fits e h = (
    omega (arith, h.0, used-advance_write v n fits),
    h.1
        ∙ sym (
            take-append_left (m * rbuf.element_size_bytes) (contents rbuf) new
              (in_contents rbuf h.0))
        ∙ ap (take (m * rbuf.element_size_bytes)) (sym e),
  )

  -- The index that a reader stores leaves a writer its room and its bytes.
  pub writer-advance_read :
      (writer : Writer) (m : ℕ)
      → m ≤ used rbuf
      → WriterHolds rbuf writer
      → WriterHolds (advance_read_index rbuf m) writer
  unfolding split_regions advance_read_index advance_write_index
  writer-advance_read between_writes m there h = h
  writer-advance_read (copying_in bytes regions) m there h =
      (omega (arith, h.0, used-advance_read v m there), h.1, h.2)
  writer-advance_read (storing_write bytes n) m there h =
      let skip : List ℕ → List ℕ = drop (m * rbuf.element_size_bytes) in
      let new = take (n * rbuf.element_size_bytes) bytes in
      (
        omega (arith, h.0, used-advance_read v m there),
        h.1,
        contents-advance_read (advance_write-IsValid v n h.0) m
              (omega (arith, there, used-advance_write v n h.0))
            ∙ ap skip h.2
            ∙ drop-append_left (m * rbuf.element_size_bytes) (contents rbuf) new
                (in_contents rbuf there)
            ∙ ap (λ c. c ++ new) (sym (contents-advance_read v m there)),
      )

-- The array that a reader has copied into begins with the bytes copied.
pub take-copied :
    (out : List ℕ) (rbuf : RingBuffer) (n : ℕ)
    → n ≤ used rbuf
    → take
        (n * rbuf.element_size_bytes)
        (splice out 0 (take (n * rbuf.element_size_bytes) (contents rbuf)))
      ≡ take (n * rbuf.element_size_bytes) (contents rbuf)
take-copied out rbuf n there =
    let k = n * rbuf.element_size_bytes in
    let len : length (take k (contents rbuf)) ≡ k =
      omega (arith, length-take k (contents rbuf), in_contents rbuf there) in
    take-append_left k (take k (contents rbuf)) _ (omega (arith, len))
    ∙ take_of_length_le k (take k (contents rbuf)) (omega (arith, len))

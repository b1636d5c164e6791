-- ===== src/RingBuffer/Threads/Examples.antt =====
-- Runs of two threads on one ring buffer.
use rawr.Common.{ℕ, ◌≡◌, refl, arith, List, [], ◌∷◌, ◌++◌, some}
use rawr.Common.Memory.{memcpy}
use rawr.RingBuffer.{RingBuffer, get_write_regions, get_read_regions, split_regions}
use rawr.RingBuffer.{get_read_available, get_write_available, copy_in, copy_out}
use rawr.RingBuffer.{advance_write_index, advance_read_index}
use rawr.RingBuffer.Invariant.{IsValid, contents}
use rawr.RingBuffer.Threads.{
  Threads, Turn, between_writes, between_reads, storing_read, writer_goes, reader_goes, writer_turn,
  reader_turn, turn, run_turns, at_rest,
}
use rawr.RingBuffer.Threads.Order.{run_turns-in_order}
use rawr.RingBuffer.Threads.Alone.{}

-- Two elements of one byte; one stored.
abbrev small : RingBuffer
small = record {
  buffer_size = 2;
  write_index = 2;
  read_index = 1;
  big_mask = 3;
  small_mask = 1;
  element_size_bytes = 1;
  buffer = 0 ∷ 7 ∷ [];
}

small-IsValid : IsValid 1 small
small-IsValid = omega arith

abbrev new_bytes : List ℕ
new_bytes = 8 ∷ 9 ∷ []

abbrev blank : List ℕ
blank = 0 ∷ 0 ∷ []

abbrev w : Turn
w = writer_goes new_bytes 2

abbrev r : Turn
r = reader_goes blank 2

-- The reader computes its regions before the writer stores its index, and the writer its regions
-- before the reader stores its own: each sees less than there is, and both calls move one byte.
abbrev overlapped : List Turn
overlapped = w ∷ r ∷ r ∷ w ∷ r ∷ w ∷ []

run_turns-overlapped :
    run_turns (at_rest small) overlapped
    ≡ some (record {
      rbuf = record small { write_index = 3; read_index = 2; buffer = 8 ∷ 7 ∷ [] };
      writer = between_writes;
      reader = between_reads;
      sent = 7 ∷ 8 ∷ [];
      received = 7 ∷ [];
    })
unfolding run_turns turn writer_turn reader_turn get_write_regions get_read_regions
    get_write_available get_read_available split_regions memcpy copy_in copy_out advance_write_index
    advance_read_index
run_turns-overlapped = refl

run_turns-in_order_example :
    (after : Threads) × (run_turns (at_rest small) overlapped ≡ some after)
    × IsValid 1 after.rbuf
    × (after.sent ≡ after.received ++ contents after.rbuf)
run_turns-in_order_example = run_turns-in_order overlapped small-IsValid (omega arith)

-- Alone while the reader stands before its copy.
abbrev waiting : Threads
waiting = record (at_rest small) { reader = storing_read (7 ∷ 0 ∷ []) 1 }

-- ===== src/RingBuffer/Threads.antt =====
-- `rawr_RingBuffer_Write` and `rawr_RingBuffer_Read` of src/RingBuffer.c called by two threads at
-- once. Each call is three turns: it reads the indices and computes the regions, it copies, and it
-- stores the advanced index, which are the only accesses of memory that the other thread may use.
-- The barriers keep that order. The turns of the two threads come in any order.
pub mod Holds
pub mod Order
pub mod Alone
mod Examples
use rawr.Common.{ℕ, ◌+◌, ◌*◌, ◌≤◌, ◌≡◌, Option, none, some, List, [], ◌∷◌, ◌++◌, take, length}
use rawr.RingBuffer.{RingBuffer, Regions, get_write_regions, get_read_regions, copy_in, copy_out}
use rawr.RingBuffer.{advance_write_index, advance_read_index}
use rawr.RingBuffer.Invariant.{contents}

-- Where the two threads stand: outside a call, before the copy, or before the index is stored. A
-- thread inside a call holds the caller's array.
pub data Writer : Type 0 where
  between_writes : Writer
  copying_in : List ℕ → Regions → Writer
  storing_write : List ℕ → ℕ → Writer

pub data Reader : Type 0 where
  between_reads : Reader
  copying_out : List ℕ → Regions → Reader
  storing_read : List ℕ → ℕ → Reader

-- The ring and the threads. `sent` and `received` hold the bytes of the calls that have stored their
-- index; the code has no such fields.
pub record Threads : Type 0 where
  pub rbuf : RingBuffer
  pub writer : Writer
  pub reader : Reader
  pub sent : List ℕ
  pub received : List ℕ

-- One turn of the writing thread. The arguments are those of the call that it begins where it is
-- outside one.
pub writer_turn : List ℕ → ℕ → Threads → Option Threads
writer_turn bytes count threads = elim threads.writer [
  | between_writes ↦
      some (record threads { writer = copying_in bytes (get_write_regions threads.rbuf count) })
  | copying_in from regions ↦ elim (copy_in threads.rbuf from regions) [
    | none ↦ none
    | some stored ↦ some (record threads {
      rbuf = record (threads.rbuf) { buffer = stored };
      writer = storing_write from regions.count;
    })
  ]
  | storing_write from n ↦ some (record threads {
    rbuf = advance_write_index threads.rbuf n;
    writer = between_writes;
    sent = threads.sent ++ take (n * threads.rbuf.element_size_bytes) from;
  })
]

pub reader_turn : List ℕ → ℕ → Threads → Option Threads
reader_turn bytes count threads = elim threads.reader [
  | between_reads ↦
      some (record threads { reader = copying_out bytes (get_read_regions threads.rbuf count) })
  | copying_out into regions ↦ elim (copy_out threads.rbuf into regions) [
    | none ↦ none
    | some out ↦ some (record threads { reader = storing_read out regions.count })
  ]
  | storing_read out n ↦ some (record threads {
    rbuf = advance_read_index threads.rbuf n;
    reader = between_reads;
    received = threads.received ++ take (n * threads.rbuf.element_size_bytes) out;
  })
]

pub data Turn : Type 0 where
  writer_goes : List ℕ → ℕ → Turn
  reader_goes : List ℕ → ℕ → Turn

pub turn : Turn → Threads → Option Threads
unfolding writer_turn reader_turn
turn (writer_goes bytes count) threads = writer_turn bytes count threads
turn (reader_goes bytes count) threads = reader_turn bytes count threads

-- The turns in the order given; `none` is an access outside an array.
pub run_turns : Threads → List Turn → Option Threads
run_turns threads [] = some threads
run_turns threads (t ∷ turns) = elim (turn t threads) [
  | none ↦ none
  | some next ↦ run_turns next turns
]

-- Both threads outside a call; what the ring holds counts as sent.
abbrev pub at_rest : RingBuffer → Threads
at_rest rbuf = record {
  rbuf = rbuf;
  writer = between_writes;
  reader = between_reads;
  sent = contents rbuf;
  received = [];
}

-- Every array is as large as its count says.
abbrev pub AreGiven : ℕ → List Turn → Type 0
AreGiven size [] = Unit
AreGiven size (writer_goes bytes count ∷ turns) =
    (count * size ≤ length bytes) × AreGiven size turns
AreGiven size (reader_goes bytes count ∷ turns) =
    (count * size ≤ length bytes) × AreGiven size turns

-- ===== src/RingBuffer/Threads/Alone.antt =====
-- Three turns of one thread in a row are a call of `rawr_RingBuffer_Write` or
-- `rawr_RingBuffer_Read`.
use rawr.Common.{
  ℕ, ◌*◌, ◌≡◌, refl, inl, inr, Option-cases, List, [], ◌∷◌, ◌++◌, Option, none, some, take,
}
use rawr.RingBuffer.{RingBuffer, write, read, get_write_regions, get_read_regions}
use rawr.RingBuffer.{copy_in, copy_out}
use rawr.RingBuffer.Threads.{
  between_writes, between_reads, Threads, Turn, writer_goes, reader_goes, writer_turn, reader_turn,
  turn, run_turns,
}

-- What a call leaves, where the function returns.
abbrev pub after_write : Threads → List ℕ → Option (ℕ × RingBuffer) → Option Threads
after_write threads bytes none = none
after_write threads bytes (some (n, rbuf)) = some (record threads {
  rbuf = rbuf;
  writer = between_writes;
  sent = threads.sent ++ take (n * threads.rbuf.element_size_bytes) bytes;
})

abbrev pub after_read : Threads → Option (ℕ × List ℕ × RingBuffer) → Option Threads
after_read threads none = none
after_read threads (some (n, out, rbuf)) = some (record threads {
  rbuf = rbuf;
  reader = between_reads;
  received = threads.received ++ take (n * threads.rbuf.element_size_bytes) out;
})

abbrev pub write_turns : List ℕ → ℕ → List Turn
write_turns bytes count =
    writer_goes bytes count ∷ writer_goes bytes count ∷ writer_goes bytes count ∷ []

abbrev pub read_turns : List ℕ → ℕ → List Turn
read_turns bytes count =
    reader_goes bytes count ∷ reader_goes bytes count ∷ reader_goes bytes count ∷ []

-- Neither function changes the size of the elements.
write_alone :
    (threads : Threads) (bytes : List ℕ) (count : ℕ)
    → run_turns (record threads { writer = between_writes }) (write_turns bytes count)
      ≡ after_write threads bytes (write threads.rbuf bytes count)
unfolding write run_turns turn
write_alone threads bytes count =
    elim (Option-cases (copy_in threads.rbuf bytes (get_write_regions threads.rbuf count))) [
      | inl fault ↦ rw (run_turns, turn, writer_turn, fault) refl
      | inr (stored, copied) ↦ rw (run_turns, turn, writer_turn, copied) refl
    ]

read_alone :
    (threads : Threads) (bytes : List ℕ) (count : ℕ)
    → run_turns (record threads { reader = between_reads }) (read_turns bytes count)
      ≡ after_read threads (read threads.rbuf bytes count)
unfolding read run_turns turn
read_alone threads bytes count =
    elim (Option-cases (copy_out threads.rbuf bytes (get_read_regions threads.rbuf count))) [
      | inl fault ↦ rw (run_turns, turn, reader_turn, fault) refl
      | inr (out, copied) ↦ rw (run_turns, turn, reader_turn, copied) refl
    ]

-- Three turns of the writing thread in a row, outside a call, do what `rawr_RingBuffer_Write` does,
-- and three of the reading thread what `rawr_RingBuffer_Read` does, an access outside an array
-- included, wherever the other thread stands.
run_turns-alone :
    (threads : Threads) (bytes : List ℕ) (count : ℕ)
    → (run_turns (record threads { writer = between_writes }) (write_turns bytes count)
        ≡ after_write threads bytes (write threads.rbuf bytes count))
      × (run_turns (record threads { reader = between_reads }) (read_turns bytes count)
          ≡ after_read threads (read threads.rbuf bytes count))
run_turns-alone threads bytes count =
    (write_alone threads bytes count, read_alone threads bytes count)

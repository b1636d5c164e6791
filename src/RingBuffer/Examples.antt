-- ===== src/RingBuffer/Examples.antt =====
-- Runs of src/RingBuffer.c.
use rawr.Common.{ℕ, ◌-◌, ◌^◌, ◌≡◌, refl, arith, List, [], ◌∷◌, some}
use rawr.RingBuffer.{RingBuffer, initialize, get_read_available, get_write_available, write, read}
use rawr.RingBuffer.{get_write_regions, get_read_regions, split_regions, advance_write_index}
use rawr.RingBuffer.{advance_read_index}
use rawr.Common.Memory.{memcpy}
use rawr.RingBuffer.Invariant.{IsValid, used, contents}
use rawr.RingBuffer.Init.{initialize-IsValid}
use rawr.RingBuffer.Write.{Written, write-Written}
use rawr.RingBuffer.Read.{Taken, read-Taken}
use rawr.RingBuffer.Queue.{Call, run, run_queue, queue_of, run-eq-run_queue}

-- Four samples of two bytes; two stored, the second at the start of the array.
abbrev wrapped : RingBuffer
wrapped = record {
  buffer_size = 4;
  write_index = 5;
  read_index = 3;
  big_mask = 7;
  small_mask = 3;
  element_size_bytes = 2;
  buffer = 30 ∷ 31 ∷ 0 ∷ 0 ∷ 0 ∷ 0 ∷ 20 ∷ 21 ∷ [];
}

abbrev samples : List ℕ
samples = 1 ∷ 2 ∷ 3 ∷ 4 ∷ 5 ∷ 6 ∷ []

abbrev zeroes : List ℕ
zeroes = 0 ∷ 0 ∷ 0 ∷ 0 ∷ 0 ∷ 0 ∷ 0 ∷ 0 ∷ []

wrapped-IsValid : IsValid 2 wrapped
wrapped-IsValid = omega arith

contents-wrapped : contents wrapped ≡ 20 ∷ 21 ∷ 30 ∷ 31 ∷ []
contents-wrapped = refl

abbrev filled : RingBuffer
filled = record wrapped { write_index = 7; buffer = 30 ∷ 31 ∷ 1 ∷ 2 ∷ 3 ∷ 4 ∷ 20 ∷ 21 ∷ [] }

-- Three samples are offered, and two fit.
write_fits : write wrapped samples 3 ≡ some (2, filled)
unfolding write get_write_regions get_write_available get_read_available split_regions memcpy
    advance_write_index
write_fits = refl

-- A read round the end of the array.
read_round :
    read wrapped zeroes 3
    ≡ some (2, 20 ∷ 21 ∷ 30 ∷ 31 ∷ 0 ∷ 0 ∷ 0 ∷ 0 ∷ [], record wrapped { read_index = 5 })
unfolding read get_read_regions get_read_available split_regions memcpy advance_read_index
read_round = refl

-- Three elements are refused, none are accepted.
initialize_three : (initialize wrapped 2 3 zeroes).0 ≡ 2 ^ 64 - 1
unfolding initialize
initialize_three = refl

initialize_none : (initialize wrapped 2 0 []).0 ≡ 0
unfolding initialize
initialize_none = refl

initialize-IsValid_example :
    ((initialize wrapped 2 4 zeroes).0 ≡ 0)
    × IsValid 2 (initialize wrapped 2 4 zeroes).1
    × (used (initialize wrapped 2 4 zeroes).1 ≡ 0)
initialize-IsValid_example =
    initialize-IsValid wrapped 2 2 zeroes (omega arith) (omega arith) refl (omega arith)

write-Written_example : Written 2 wrapped samples 3
write-Written_example = write-Written wrapped-IsValid samples 3 (omega arith)

read-Taken_example : Taken 2 wrapped zeroes 3
read-Taken_example = read-Taken wrapped-IsValid zeroes 3 (omega arith)

abbrev calls : List Call
calls =
    Call.writes samples 3
    ∷ Call.reads zeroes 1
    ∷ Call.reads zeroes 4
    ∷ Call.flushes
    ∷ Call.reads zeroes 1
    ∷ []

run-eq-run_queue_example : run wrapped calls ≡ some (run_queue (queue_of wrapped) calls)
run-eq-run_queue_example = run-eq-run_queue calls wrapped-IsValid (omega arith)

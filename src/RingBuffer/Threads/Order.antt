-- ===== src/RingBuffer/Threads/Order.antt =====
-- Whatever the order of the two threads' turns, the ring is a first-in first-out queue.
use rawr.Common.{ℕ, ◌*◌, ◌≤◌, ◌≡◌, refl, sym, ap, ◌∙◌, append_assoc, take-append-drop}
use rawr.Common.{List, [], ◌∷◌, ◌++◌, Option, some, length, take, drop}
use rawr.Common.Memory.{splice}
use rawr.RingBuffer.{RingBuffer}
use rawr.RingBuffer.{copy_in, copy_out, advance_write_index, advance_read_index}
use rawr.RingBuffer.Invariant.{IsValid, contents}
use rawr.RingBuffer.Advance.{advance_write-IsValid, advance_read-IsValid}
use rawr.RingBuffer.Write.Fill.{
  stored, filled, filled-IsValid, contents-filled, contents-advance_write,
}
use rawr.RingBuffer.Read.Take.{copy_out-oldest, contents-advance_read}
use rawr.RingBuffer.Threads.{
  Writer, between_writes, copying_in, storing_write, Reader, between_reads, copying_out,
  storing_read, Threads, Turn, writer_goes, reader_goes, writer_turn, reader_turn, turn, run_turns,
  at_rest, AreGiven,
}
use rawr.RingBuffer.Threads.Holds.{
  IsRunning, begin-write, begin-read, reader-filled, reader-advance_write, writer-advance_read,
  take-copied,
}

-- A turn that goes well and keeps the invariant.
abbrev pub Goes : ℕ → ℕ → Option Threads → Type 0
Goes order size result = (after : Threads) × (result ≡ some after) × IsRunning order size after

writer_turn-Goes :
    {order size : ℕ} (bytes : List ℕ) (count : ℕ) (threads : Threads) (writer : Writer)
    → IsRunning order size (record threads { writer = writer })
    → count * size ≤ length bytes
    → Goes order size (writer_turn bytes count (record threads { writer = writer }))
unfolding writer_turn
writer_turn-Goes bytes count threads between_writes r given = (
  _,
  refl,
  record {
    valid = r.valid;
    size_eq = r.size_eq;
    writer_holds = begin-write r.valid bytes count (rw r.size_eq given);
    reader_holds = r.reader_holds;
    in_order = r.in_order;
  },
)
writer_turn-Goes {order} {size} bytes count threads (copying_in from regions) r given =
    let (fits, same, space) = r.writer_holds in
    let n = regions.count in
    let ring = filled r.valid from n fits space in
    let kept : contents ring ≡ contents threads.rbuf = contents-filled r.valid from n fits space in
    let copied : copy_in threads.rbuf from regions ≡ some ring.buffer =
      ap (copy_in threads.rbuf from) same ∙ (stored r.valid from n fits space).1 in
    (
      record threads { rbuf = ring; writer = storing_write from n },
      rw (writer_turn, copied) refl,
      record {
        valid = filled-IsValid r.valid from n fits space;
        size_eq = r.size_eq;
        writer_holds = (
          fits,
          space,
          contents-advance_write r.valid from n fits space
              ∙ ap (λ c. c ++ take (n * threads.rbuf.element_size_bytes) from) (sym kept),
        );
        reader_holds = reader-filled r.valid threads.reader ring.buffer kept r.reader_holds;
        in_order = r.in_order ∙ ap (λ c. threads.received ++ c) (sym kept);
      },
    )
writer_turn-Goes {order} {size} bytes count threads (storing_write from n) r given =
    let (fits, space, shown) = r.writer_holds in
    let new = take (n * threads.rbuf.element_size_bytes) from in
    (
      _,
      refl,
      record {
        valid = advance_write-IsValid r.valid n fits;
        size_eq = unfold advance_write_index in r.size_eq;
        writer_holds = _;
        reader_holds = reader-advance_write r.valid threads.reader n new fits shown r.reader_holds;
        in_order =
            ap (λ s. s ++ new) r.in_order
            ∙ append_assoc threads.received (contents threads.rbuf) new
            ∙ ap (λ c. threads.received ++ c) (sym shown);
      },
    )

reader_turn-Goes :
    {order size : ℕ} (bytes : List ℕ) (count : ℕ) (threads : Threads) (reader : Reader)
    → IsRunning order size (record threads { reader = reader })
    → count * size ≤ length bytes
    → Goes order size (reader_turn bytes count (record threads { reader = reader }))
unfolding reader_turn
reader_turn-Goes bytes count threads between_reads r given = (
  _,
  refl,
  record {
    valid = r.valid;
    size_eq = r.size_eq;
    writer_holds = r.writer_holds;
    reader_holds = begin-read r.valid bytes count (rw r.size_eq given);
    in_order = r.in_order;
  },
)
reader_turn-Goes {order} {size} bytes count threads (copying_out into regions) r given =
    let (there, same, space) = r.reader_holds in
    let n = regions.count in
    let copied =
      ap (copy_out threads.rbuf into) same
      ∙ copy_out-oldest r.valid regions.count there into space in
    (
      record threads {
        reader =
            storing_read
              (splice into 0 (take (n * threads.rbuf.element_size_bytes) (contents threads.rbuf)))
              n;
      },
      rw (reader_turn, copied) refl,
      record {
        valid = r.valid;
        size_eq = r.size_eq;
        writer_holds = r.writer_holds;
        reader_holds = (there, take-copied into threads.rbuf regions.count there);
        in_order = r.in_order;
      },
    )
reader_turn-Goes {order} {size} bytes count threads (storing_read out n) r given =
    let (there, oldest) = r.reader_holds in
    let k = n * threads.rbuf.element_size_bytes in
    let content = contents threads.rbuf in
    (
      _,
      refl,
      record {
        valid = advance_read-IsValid r.valid n there;
        size_eq = unfold advance_read_index in r.size_eq;
        writer_holds = writer-advance_read r.valid threads.writer n there r.writer_holds;
        reader_holds = _;
        in_order =
            r.in_order
            ∙ ap (λ c. threads.received ++ c) (sym (take-append-drop k content))
            ∙ sym (append_assoc threads.received (take k content) (drop k content))
            ∙ ap (λ t. (threads.received ++ t) ++ drop k content) (sym oldest)
            ∙ ap (λ c. (threads.received ++ take k out) ++ c)
                (sym (contents-advance_read r.valid n there));
      },
    )

-- Every schedule.
run_turns-Goes :
    {order size : ℕ} (turns : List Turn) (threads : Threads)
    → IsRunning order size threads
    → AreGiven size turns
    → Goes order size (run_turns threads turns)
unfolding run_turns turn
run_turns-Goes [] threads r given = (threads, refl, r)
run_turns-Goes (writer_goes bytes count ∷ turns) threads r given =
    let (next, goes, running) = writer_turn-Goes bytes count threads threads.writer r given.0 in
    let (after, rest, holds) = run_turns-Goes turns next running given.1 in
    (after, rw (run_turns, turn, goes) rest, holds)
run_turns-Goes (reader_goes bytes count ∷ turns) threads r given =
    let (next, goes, running) = reader_turn-Goes bytes count threads threads.reader r given.0 in
    let (after, rest, holds) = run_turns-Goes turns next running given.1 in
    (after, rw (run_turns, turn, goes) rest, holds)

-- One thread writes to a valid ring while another reads from it, each from or into arrays as large
-- as its calls' counts say, and the turns of their calls come in any order. Then no copy leaves an
-- array, the ring stays valid, and the bytes of the finished writes, behind those that the ring held
-- at first, are those that the finished reads gave to their callers followed by the ring's content:
-- nothing is lost, repeated, reordered or torn.
pub run_turns-in_order :
    (turns : List Turn) {order : ℕ} {rbuf : RingBuffer}
    → IsValid order rbuf
    → AreGiven rbuf.element_size_bytes turns
    → (after : Threads) × (run_turns (at_rest rbuf) turns ≡ some after)
      × IsValid order after.rbuf
      × (after.sent ≡ after.received ++ contents after.rbuf)
run_turns-in_order turns {order} {rbuf} v given =
    let start : IsRunning order rbuf.element_size_bytes (at_rest rbuf) = record {
      valid = v;
      size_eq = refl;
      writer_holds = _;
      reader_holds = _;
      in_order = refl;
    } in
    let (after, runs, holds) = run_turns-Goes turns (at_rest rbuf) start given in
    (after, runs, holds.valid, holds.in_order)

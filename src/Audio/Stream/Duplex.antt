-- ===== src/Audio/Stream/Duplex.antt =====
-- What an audio stream promises to the call's threads and to the device: two bounded queues of
-- samples, one each way, from which packets are taken whole or not at all, and silence where the
-- device finds too little to play. The events of src/AudioPA.c come in any order.
pub mod Packets
pub mod Refines
mod Examples
use rawr.Common.{ℕ, ◌-◌, ◌*◌, ◌^◌, ◌≤◌, ◌<◌, Bool, true, false, List, [], ◌∷◌, Option, none, some}
use rawr.Common.{length, ltb, if◌then◌else◌, returns, aborts}
use rawr.Common.Memory.{splice}
use rawr.RingBuffer.Queue.{Queue, put, get, queue_of}
use rawr.Audio.Stream.{AudioStream, sample_bytes, stream_read, stream_write, silence, callback}

-- A turn of the device, with its two buffers and the flag that it is priming; a read of a packet
-- into an array; a write of a packet.
pub data Event : Type 0 where
  device_calls : Bool → List ℕ → List ℕ → ℕ → Event
  thread_reads : List ℕ → Event
  thread_writes : List ℕ → Event

-- What the device and the threads see of it.
pub data Answer : Type 0 where
  plays : Option (List ℕ) → Answer
  reads_packet : ℕ → List ℕ → Answer
  writes_packet : ℕ → Answer

pub record Duplex : Type 0 where
  pub packet : ℕ
  pub to_device : Queue
  pub from_device : Queue

-- Where too little is queued, nothing is taken.
pub read_packet : ℕ → Queue → List ℕ → ℕ × List ℕ × Queue
read_packet packet q bytes = if ltb q.stored packet then (0, bytes, q) else get q bytes packet

pub write_packet : ℕ → Queue → List ℕ → ℕ × Queue
write_packet packet q bytes =
    if ltb (q.capacity - q.stored) packet then (0, q) else put q bytes packet

abbrev pub muted : List ℕ → ℕ → List ℕ
muted outputs frames = splice outputs 0 (silence (frames * sample_bytes))

unfoldable pub play_samples : Queue → List ℕ → ℕ → List ℕ × Queue
play_samples q outputs frames =
    if ltb q.stored frames
    then (muted outputs frames, q)
    else (let (n, out, rest) = get q outputs frames in (out, rest))

-- What is recorded and finds no room is dropped.
unfoldable pub device_turn : Bool → List ℕ → List ℕ → ℕ → Duplex → Answer × Duplex
unfolding play_samples
device_turn true inputs outputs frames d = (plays (some (muted outputs frames)), d)
device_turn false inputs outputs frames d =
    let (out, to_device) = play_samples d.to_device outputs frames in
    (
      plays (some out),
      record d { to_device = to_device; from_device = (put d.from_device inputs frames).1 },
    )

unfoldable pub event_turn : Event → Duplex → Answer × Duplex
unfolding device_turn read_packet write_packet
event_turn (device_calls priming inputs outputs frames) d =
    device_turn priming inputs outputs frames d
event_turn (thread_reads bytes) d =
    let (n, out, rest) = read_packet d.packet d.from_device bytes in
    (reads_packet n out, record d { from_device = rest })
event_turn (thread_writes bytes) d =
    let (n, rest) = write_packet d.packet d.to_device bytes in
    (writes_packet n, record d { to_device = rest })

unfoldable pub run_duplex : Duplex → List Event → List Answer
run_duplex d [] = []
run_duplex d (event ∷ events) =
    let (answer, rest) = event_turn event d in answer ∷ run_duplex rest events

-- The same event of the code; `none` is an access through NULL or outside an array.
pub stream_turn : (List ℕ → ℕ → ℕ) → Event → AudioStream → Option (Answer × AudioStream)
stream_turn level (device_calls priming inputs outputs frames) stream =
    elim (callback level priming (some inputs) (some outputs) frames stream) [
      | aborts ↦ none
      | returns (out, after) ↦ some (plays out, after)
    ]
stream_turn level (thread_reads bytes) stream = elim (stream_read stream bytes) [
  | none ↦ none
  | some (n, out, after) ↦ some (reads_packet n out, after)
]
stream_turn level (thread_writes bytes) stream = elim (stream_write stream bytes) [
  | none ↦ none
  | some (n, after) ↦ some (writes_packet n, after)
]

also_answers : Answer → Option (List Answer) → Option (List Answer)
also_answers answer none = none
also_answers answer (some answers) = some (answer ∷ answers)

pub run_stream : (List ℕ → ℕ → ℕ) → AudioStream → List Event → Option (List Answer)
unfolding also_answers
run_stream level stream [] = some []
run_stream level stream (event ∷ events) = elim (stream_turn level event stream) [
  | none ↦ none
  | some (answer, after) ↦ also_answers answer (run_stream level after events)
]

-- Every array holds a packet, or the frames that the device asks for, which are fewer than 2^63.
abbrev pub IsFed : ℕ → Event → Type 0
IsFed packet (device_calls priming inputs outputs frames) =
    (frames * sample_bytes ≤ length inputs)
    × (frames * sample_bytes ≤ length outputs)
    × (frames < 2 ^ 63)
IsFed packet (thread_reads bytes) = packet * sample_bytes ≤ length bytes
IsFed packet (thread_writes bytes) = packet * sample_bytes ≤ length bytes

abbrev pub AreFed : ℕ → List Event → Type 0
AreFed packet [] = Unit
AreFed packet (event ∷ events) = IsFed packet event × AreFed packet events

-- The two queues that a stream stands for.
abbrev pub duplex_of : ℕ → AudioStream → Duplex
duplex_of packet stream = record {
  packet = packet;
  to_device = queue_of stream.rb_to_device;
  from_device = queue_of stream.rb_from_device;
}

-- ===== src/Call/Receive.antt =====
-- `rawr_Call_OnRtp` and `rawr_Call_OnUdpRecv` of src/Call.c: a received packet is counted, decoded
-- and written to the audio stream, which the device empties meanwhile. `size_t` and `uint64_t` have
-- 64 bits and wrap.
pub mod Room
pub mod Playout
pub mod Counting
mod Examples
use rawr.Common.{ℕ, zero, suc, ◌+◌, Bool, true, false, not, List, [], ◌∷◌, Option, none, some}
use rawr.Common.{ltb, if◌then◌else◌, add_size, sub_size, ℤ, is_negative, Outcome, returns, aborts}
use rawr.Common.Memory.{splice}
use rawr.Codec.{Opus, Codec, decode}
use rawr.Audio.Stream.{AudioStream, stream_write, callback}
use rawr.Call.Send.{overhead_bytes, wait_ns}

-- The fields of the call that the handler uses; `output_samples` holds bytes.
pub record Receiver : Type 0 where
  pub initialized : Bool
  pub bytes_recv : ℕ
  pub recv_total : ℕ
  pub recv_rate : ℕ
  pub last_recv_time : ℕ
  pub recv_count : ℕ
  pub output_samples : List ℕ
  pub stream : AudioStream

-- A callback of the device, outside priming, with its two buffers.
pub record DeviceTurn : Type 0 where
  pub inputs : List ℕ
  pub outputs : List ℕ
  pub frames : ℕ

-- A packet: the times that the handler reads, the bytes left in the buffer, whether it is decrypted,
-- what the decoder is given and the bytes that it writes; and what the device does after each look
-- at the stream that finds no room.
pub record Packet : Type 0 where
  pub first_now : ℕ
  pub now : ℕ
  pub left : ℕ
  pub decrypts : Bool
  pub payload : List ℕ
  pub samples : List ℕ
  pub turns : List (Option DeviceTurn)

pub begin : ℕ → Receiver → Receiver
begin now r = if r.initialized then r else record r {
  initialized = true;
  bytes_recv = 0;
  recv_total = 0;
  recv_rate = 0;
  last_recv_time = now;
}

-- More than a second after the last time, the bytes go to the total.
pub count_packet : ℕ → ℕ → Receiver → Receiver
count_packet now left r =
    let bytes = add_size r.bytes_recv (add_size left overhead_bytes) in
    if ltb wait_ns (sub_size now r.last_recv_time)
    then record r {
      bytes_recv = 0;
      recv_total = add_size r.recv_total bytes;
      recv_rate = bytes;
      last_recv_time = add_size r.last_recv_time wait_ns;
    }
    else record r { bytes_recv = bytes }

-- The device, between two looks; `none` is an access through NULL or outside an array.
pub device_goes : (List ℕ → ℕ → ℕ) → Option DeviceTurn → AudioStream → Option AudioStream
device_goes level none stream = some stream
device_goes level (some turn) stream =
    elim (callback level false (some turn.inputs) (some turn.outputs) turn.frames stream) [
      | aborts ↦ none
      | returns (out, after) ↦ some after
    ]

-- What the looks come to: a fault, a stream without room at every look, or a write.
pub data Wait : Type 0 where
  faults : Wait
  finds_no_room : AudioStream → Wait
  writes : ℕ → AudioStream → Wait

-- `while ((sampleCount = rawr_AudioStream_Write(...)) == 0) {}`, with one look more than the device
-- has turns.
pub wait_for_room : (List ℕ → ℕ → ℕ) → List ℕ → List (Option DeviceTurn) → AudioStream → Wait
wait_for_room level bytes [] stream = elim (stream_write stream bytes) [
  | none ↦ faults
  | some (zero, same) ↦ finds_no_room same
  | some (suc n, after) ↦ writes (suc n) after
]
wait_for_room level bytes (turn ∷ turns) stream = elim (stream_write stream bytes) [
  | none ↦ faults
  | some (zero, same) ↦ elim (device_goes level turn same) [
    | none ↦ faults
    | some next ↦ wait_for_room level bytes turns next
  ]
  | some (suc n, after) ↦ writes (suc n) after
]

-- What the handler ends in: a packet that is played, the jump to `cleanup`, a wait that has not
-- ended, or the end of the process.
pub data Handled : Type 0 where
  received : Receiver → Handled
  dropped : Receiver → Handled
  waiting : Receiver → Handled
  crashed : Handled

-- From the write on. A count is never negative.
pub after_wait : Receiver → Wait → Handled
after_wait r faults = crashed
after_wait r (finds_no_room stream) = waiting (record r { stream = stream })
after_wait r (writes n stream) =
    received (record r { stream = stream; recv_count = add_size r.recv_count 1 })

pub play_packet : (List ℕ → ℕ → ℕ) → List (Option DeviceTurn) → Receiver → Handled
unfolding wait_for_room after_wait
play_packet level turns r = after_wait r (wait_for_room level r.output_samples turns r.stream)

-- From the decoder's result on.
pub after_decode : (List ℕ → ℕ → ℕ) → Packet → Receiver → Outcome ℤ → Handled
unfolding play_packet
after_decode level packet r aborts = crashed
after_decode level packet r (returns n) =
    let decoded = record r { output_samples = splice r.output_samples 0 packet.samples } in
    if is_negative n then dropped decoded else play_packet level packet.turns decoded

-- From the decryption on.
pub decode_packet : (List ℕ → ℕ → ℕ) → Opus → Codec → Packet → Receiver → Handled
unfolding after_decode
decode_packet level opus decoder packet r =
    if not packet.decrypts
    then dropped r
    else after_decode level packet r (decode opus decoder packet.payload)

pub on_rtp : (List ℕ → ℕ → ℕ) → Opus → Codec → Packet → Receiver → Handled
unfolding begin count_packet decode_packet
on_rtp level opus decoder packet r =
    decode_packet level opus decoder packet
      (count_packet packet.now packet.left (begin packet.first_now r))

-- A header that is not decoded, or of another version, is logged and handled all the same.
pub on_udp_recv : (List ℕ → ℕ → ℕ) → Opus → Codec → Bool → Bool → Packet → Receiver → Handled
unfolding on_rtp
on_udp_recv level opus decoder decodes_header is_version packet r =
    on_rtp level opus decoder packet r

-- The packets that arrive, up to one at which the handler does not return.
pub receive_all : (List ℕ → ℕ → ℕ) → Opus → Codec → List Packet → Receiver → Handled
unfolding on_rtp
receive_all level opus decoder [] r = received r
receive_all level opus decoder (packet ∷ packets) r = elim (on_rtp level opus decoder packet r) [
  | received after ↦ receive_all level opus decoder packets after
  | dropped after ↦ receive_all level opus decoder packets after
  | waiting after ↦ waiting after
  | crashed ↦ crashed
]

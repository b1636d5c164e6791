-- ===== src/Audio/Stream.antt =====
-- The audio streams of src/AudioPA.c: two ring buffers between the PortAudio callback and the
-- threads of a call. PortAudio's answers and the memory given are arguments, and so is the level
-- that the callback computes in floating point. A signed multiplication that overflows wraps.
pub mod Calls
pub mod Rings
pub mod Setup
pub mod Flow
pub mod Duplex
mod Examples
use rawr.Common.{ℕ, zero, suc, ◌+◌, ◌-◌, ◌*◌, ◌^◌, ◌%◌, ◌≡◌, Bool, true, false, not, ◌&&◌, ◌||◌}
use rawr.Common.{List, [], ◌∷◌, ◌++◌, Option, none, some, length}
use rawr.Common.{ltb, leb, ◌==◌, if◌then◌else◌, u32, mul_size, ℤ, pos, negsuc, int_ltb, int_eq}
use rawr.Common.{ErrorCode, success, failure, Outcome, returns, aborts}
use rawr.Common.Memory.{splice}
use rawr.RingBuffer.{RingBuffer, get_read_available, get_write_available, write, read}
use rawr.RingBuffer.{initialize}
use rawr.Util.{next_power_of2}
use rawr.Audio.Device.{AudioDevice, output_channels, input_channels}

-- `rawr_AudioStream` with its private part.
pub record AudioStream : Type 0 where
  pub out_device : Option AudioDevice
  pub in_device : Option AudioDevice
  pub sample_rate : ℕ
  pub sample_capacity : ℕ
  pub channel_count : ℤ
  pub sample_count : ℤ
  pub input_level : ℕ
  pub output_level : ℕ
  pub rb_to_device : RingBuffer
  pub rb_from_device : RingBuffer

-- `sizeof(rawr_AudioSample)`
abbrev pub sample_bytes : ℕ
sample_bytes = 2

-- An `int` where an `unsigned` or a `size_t` is wanted.
abbrev pub to_unsigned : ℤ → ℕ
to_unsigned (pos n) = u32 n
to_unsigned (negsuc n) = u32 (2 ^ 32 - 1 - u32 n)

abbrev pub to_size : ℤ → ℕ
to_size (pos n) = n
to_size (negsuc n) = 2 ^ 64 - 1 - n

-- A private part after `memset`.
abbrev pub zeroed : RingBuffer
zeroed = record {
  buffer_size = 0;
  write_index = 0;
  read_index = 0;
  big_mask = 0;
  small_mask = 0;
  element_size_bytes = 0;
  buffer = [];
}

-- The memory given for the stream, for its private part, and for the data of the two rings.
pub record StreamMemory : Type 0 where
  pub stream : Bool
  pub private_part : Bool
  pub data_to : ℕ → Option (List ℕ)
  pub data_from : ℕ → Option (List ℕ)

-- No byte can be reached through NULL.
abbrev pub block : Option (List ℕ) → List ℕ
block none = []
block (some bytes) = bytes

-- What a setup leaves in `*out_stream`: the stream, or, with an error, NULL, a stream whose private
-- part is missing, or a pointer to released memory.
pub data StreamSetup : Type 0 where
  made : AudioStream → StreamSetup
  no_stream : StreamSetup
  no_private_part : StreamSetup
  undone : StreamSetup

pub ring_samples : ℤ → ℕ
ring_samples sample_count = next_power_of2 (u32 (to_unsigned sample_count * 10))

-- The fields that a setup stores.
abbrev pub new_stream : ℕ → ℤ → ℤ → RingBuffer → RingBuffer → AudioStream
new_stream sample_rate channel_count sample_count to_ring from_ring = record {
  out_device = none;
  in_device = none;
  sample_rate = sample_rate;
  sample_capacity = ring_samples sample_count;
  channel_count = channel_count;
  sample_count = sample_count;
  input_level = 0;
  output_level = 0;
  rb_to_device = to_ring;
  rb_from_device = from_ring;
}

pub stream_setup : StreamMemory → ℕ → ℤ → ℤ → StreamSetup
stream_setup memory sample_rate channel_count sample_count =
    let num_samples = ring_samples sample_count in
    let num_bytes = u32 (num_samples * sample_bytes) in
    let to_ring = initialize zeroed sample_bytes num_samples (block (memory.data_to num_bytes)) in
    let from_ring =
      initialize zeroed sample_bytes num_samples (block (memory.data_from num_bytes)) in
    if not memory.stream
    then no_stream
    else if not memory.private_part
    then no_private_part
    else if not (to_ring.0 == 0)
    then undone
    else if not (from_ring.0 == 0)
    then undone
    else made (new_stream sample_rate channel_count sample_count to_ring.1 from_ring.1)

-- `rawr_AudioStream_Read`; `none` is an access outside an array.
pub stream_read : AudioStream → List ℕ → Option (ℕ × List ℕ × AudioStream)
stream_read stream bytes =
    if ltb (get_read_available stream.rb_from_device) (to_size stream.sample_count)
    then some (0, bytes, stream)
    else elim (read stream.rb_from_device bytes (to_size stream.sample_count)) [
      | none ↦ none
      | some (count, out, rbuf) ↦ some (count, out, record stream { rb_from_device = rbuf })
    ]

-- `rawr_AudioStream_Write`
pub stream_write : AudioStream → List ℕ → Option (ℕ × AudioStream)
stream_write stream bytes =
    if ltb (get_write_available stream.rb_to_device) (to_size stream.sample_count)
    then some (0, stream)
    else elim (write stream.rb_to_device bytes (to_size stream.sample_count)) [
      | none ↦ none
      | some (count, rbuf) ↦ some (count, record stream { rb_to_device = rbuf })
    ]

abbrev pub silence : ℕ → List ℕ
silence zero = []
silence (suc n) = 0 ∷ silence n

-- `memset(bytes, 0, n)`; `none` is an access outside the array.
pub mute : List ℕ → ℕ → Option (List ℕ)
mute bytes n = if leb n (length bytes) then some (splice bytes 0 (silence n)) else none

-- The output buffer's part of the callback: samples from the ring, or silence where they are few.
pub play : RingBuffer → List ℕ → ℕ → Option (List ℕ × RingBuffer)
play rbuf bytes frames =
    if ltb (get_read_available rbuf) frames
    then elim (mute bytes (mul_size frames sample_bytes)) [
      | none ↦ none
      | some out ↦ some (out, rbuf)
    ]
    else elim (read rbuf bytes frames) [
      | none ↦ none
      | some (count, out, after) ↦ some (out, after)
    ]

-- The level loop reads the sample of every frame in both buffers.
abbrev pub has_frames : List ℕ → ℕ → Bool
has_frames bytes frames = leb (frames * sample_bytes) (length bytes)

-- From the level computation on, with both buffers there.
callback_buffers :
    (List ℕ → ℕ → ℕ) → List ℕ → List ℕ → ℕ → AudioStream → Outcome (Option (List ℕ) × AudioStream)
unfolding play
callback_buffers level inputs outputs frames stream =
    if not (has_frames inputs frames && has_frames outputs frames)
    then aborts
    else elim (play stream.rb_to_device outputs frames) [
      | none ↦ aborts
      | some (out, to_ring) ↦ elim (write stream.rb_from_device inputs frames) [
        | none ↦ aborts
        | some (count, from_ring) ↦ returns (
          some out,
          record stream {
            input_level = level inputs frames;
            output_level = level outputs frames;
            rb_to_device = to_ring;
            rb_from_device = from_ring;
          },
        )
      ]
    ]

-- `rawr_AudioStream_AudioCallback`, without its log lines. The result is the output buffer and the
-- stream; `aborts` is an access through NULL or outside an array. `priming` is `paPrimingOutput`.
-- The level loop reads both buffers before the tests for NULL, so with a frame to handle those tests
-- never find one, and with none to handle they copy nothing.
pub callback :
    (List ℕ → ℕ → ℕ)
    → Bool
    → Option (List ℕ)
    → Option (List ℕ)
    → ℕ
    → AudioStream
    → Outcome (Option (List ℕ) × AudioStream)
unfolding callback_buffers
callback level true inputs none frames stream =
    if mul_size frames sample_bytes == 0 then returns (none, stream) else aborts
callback level true inputs (some outputs) frames stream =
    elim (mute outputs (mul_size frames sample_bytes)) [
      | none ↦ aborts
      | some out ↦ returns (some out, stream)
    ]
callback level false (some inputs) (some outputs) frames stream =
    callback_buffers level inputs outputs frames stream
callback level false inputs outputs frames stream =
    if ltb 0 frames
    then aborts
    else returns (outputs, record stream { input_level = level [] 0; output_level = level [] 0 })

-- ===== src/Audio/Ps5.antt =====
-- src/AudioPS5.c: the same streams, with a thread in place of the callback. The fields of
-- `rawr_AudioStream` are those of src/AudioPA.c but for the thread and the owner of the rings' data;
-- there are no devices. What the console's functions answer is an argument.
pub mod Setup
pub mod Loop
mod Examples
use rawr.Common.{ℕ, ◌*◌, Bool, true, false, not, List, Option, none, some, ◌==◌, if◌then◌else◌}
use rawr.Common.{u32, ℤ, pos, is_negative, int_eq, ErrorCode, success, failure}
use rawr.RingBuffer.{RingBuffer, initialize, write}
use rawr.Audio.Device.{AudioDevice}
use rawr.Audio.Stream.{AudioStream, StreamMemory, sample_bytes, ring_samples, new_stream, zeroed}
use rawr.Audio.Stream.{block, play, stream_read, stream_write}

-- `SCE_AUDIO_IN_GRAIN_256`
unfoldable pub grain : ℕ
grain = 256

-- What a setup or a cleanup leaves behind: memory that was acquired and not released, and the user
-- service, where it was initialized and not terminated.
pub record Owned : Type 0 where
  pub stream : Bool
  pub private_part : Bool
  pub data_to : Bool
  pub data_from : Bool
  pub user_service : Bool

abbrev pub nothing_owned : Owned
nothing_owned = record {
  stream = false;
  private_part = false;
  data_to = false;
  data_from = false;
  user_service = false;
}

-- Whether `sceUserServiceInitialize` returns `SCE_OK`, `sceAudioOutInit` succeeds or has before, and
-- `sceUserServiceGetInitialUser` finds a user.
pub record Services : Type 0 where
  pub user_service : Bool
  pub audio_out : Bool
  pub initial_user : Bool

abbrev pub is_given : Option (List ℕ) → Bool
is_given none = false
is_given (some bytes) = true

-- From the private part on. A failed guard of a service releases all memory; the guard on the memory
-- of the private part returns at once.
start_services :
    StreamMemory → Services → AudioStream → Owned → ErrorCode × Option AudioStream × Owned
start_services memory services stream owned =
    if not memory.private_part
    then (failure, none, owned)
    else if not services.user_service
    then (failure, none, nothing_owned)
    else if not services.audio_out
    then (failure, none, record nothing_owned { user_service = true })
    else if not services.initial_user
    then (failure, none, record nothing_owned { user_service = true })
    else (success, some stream, record owned { private_part = true; user_service = true })

-- `rawr_AudioStream_Setup`. `none` beside a failure: `*out_stream` is NULL, unfinished or released.
pub ps5_setup : StreamMemory → Services → ℕ → ℤ → ℤ → ErrorCode × Option AudioStream × Owned
unfolding start_services
ps5_setup memory services sample_rate channel_count sample_count =
    let num_samples = ring_samples sample_count in
    let num_bytes = u32 (num_samples * sample_bytes) in
    let to_ring = initialize zeroed sample_bytes num_samples (block (memory.data_to num_bytes)) in
    let from_ring =
      initialize zeroed sample_bytes num_samples (block (memory.data_from num_bytes)) in
    if not memory.stream
    then (failure, none, nothing_owned)
    else if not (to_ring.0 == 0)
    then (failure, none, nothing_owned)
    else if not (from_ring.0 == 0)
    then (failure, none, nothing_owned)
    else start_services memory services
        (new_stream sample_rate channel_count sample_count to_ring.1 from_ring.1)
        (record nothing_owned {
          stream = true;
          data_to = is_given (memory.data_to num_bytes);
          data_from = is_given (memory.data_from num_bytes);
        })

-- `rawr_AudioStream_Cleanup` terminates the service and releases all four blocks.
pub ps5_cleanup : Owned → Owned
ps5_cleanup owned = record owned {
  user_service = false;
  private_part = false;
  data_to = false;
  data_from = false;
  stream = false;
}

-- One turn of the thread's loop: what `sceAudioOutOutput` and `sceAudioInInput` return, and the
-- samples that the second stores.
pub record GrainTurn : Type 0 where
  pub output_result : ℤ
  pub input_result : ℤ
  pub inputs : List ℕ

-- The next turn, the jump to `cleanup`, or the end of the process in an assertion or a fault. The
-- list is `outputSamples`.
pub data TurnEnd : Type 0 where
  goes_on : List ℕ → AudioStream → TurnEnd
  stops : List ℕ → AudioStream → TurnEnd
  crashes : TurnEnd

-- From the levels on, which are computed in floating point.
record_grain : (List ℕ → ℕ → ℕ) → List ℕ → List ℕ → AudioStream → TurnEnd
record_grain level inputs outputs stream = elim (write stream.rb_from_device inputs grain) [
  | none ↦ crashes
  | some (n, ring) ↦ goes_on outputs (record stream {
    input_level = level inputs grain;
    output_level = level outputs grain;
    rb_from_device = ring;
  })
]

-- From the output on.
exchange_grain : (List ℕ → ℕ → ℕ) → GrainTurn → List ℕ → AudioStream → TurnEnd
unfolding record_grain
exchange_grain level turn outputs stream =
    if is_negative turn.output_result
    then stops outputs stream
    else if not (int_eq turn.output_result (pos grain))
    then crashes
    else if is_negative turn.input_result
    then stops outputs stream
    else if not (int_eq turn.input_result (pos grain))
    then crashes
    else record_grain level turn.inputs outputs stream

-- The loop's body. Its first part is that of the callback in src/AudioPA.c, for one grain.
pub audio_turn : (List ℕ → ℕ → ℕ) → GrainTurn → List ℕ → AudioStream → TurnEnd
unfolding exchange_grain
audio_turn level turn outputs stream = elim (play stream.rb_to_device outputs grain) [
  | none ↦ crashes
  | some (out, ring) ↦ exchange_grain level turn out (record stream { rb_to_device = ring })
]

-- The thread before its loop, by the handles that `sceAudioOutOpen` and `sceAudioInOpen` return:
-- whether it reaches the loop, and whether the output and the input are open.
pub open_handles : ℤ → ℤ → Bool × Bool × Bool
open_handles out_handle in_handle =
    if is_negative out_handle
    then (false, false, false)
    else if is_negative in_handle
    then (false, true, false)
    else (true, true, true)

-- `rawr_AudioStream_Read` and `rawr_AudioStream_Write` have the text of src/AudioPA.c.
pub ps5_read : AudioStream → List ℕ → Option (ℕ × List ℕ × AudioStream)
ps5_read stream bytes = stream_read stream bytes

pub ps5_write : AudioStream → List ℕ → Option (ℕ × AudioStream)
ps5_write stream bytes = stream_write stream bytes

-- `rawr_AudioStream_AddDevice` takes any device and keeps none.
pub ps5_add_device : AudioStream → AudioDevice → ErrorCode × AudioStream
ps5_add_device stream dev = (success, stream)

-- `rawr_AudioStream_Start`, by whether the thread is launched.
pub ps5_start : Bool → AudioStream → ErrorCode × AudioStream
ps5_start launches stream = if not launches then (failure, stream) else (success, stream)

-- `rawr_AudioStream_Stop`, by what `sceAudioInClose` and `sceAudioOutClose` return: whether the
-- input and the output are still open after it.
pub ps5_stop : ℤ → ℤ → ErrorCode × Bool × Bool
ps5_stop in_close out_close =
    if is_negative in_close
    then (failure, true, true)
    else if is_negative out_close
    then (failure, false, true)
    else (success, false, false)

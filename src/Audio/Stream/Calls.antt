-- ===== src/Audio/Stream/Calls.antt =====
-- `rawr_AudioStream_AddDevice`, `rawr_AudioStream_Start` and `rawr_AudioStream_Stop` of
-- src/AudioPA.c. The answers of PortAudio are arguments.
pub mod Start
pub mod Life
use rawr.Common.{ℕ, Bool, true, false, not, ◌&&◌, List, [], ◌∷◌, Option, none, some, if◌then◌else◌}
use rawr.Common.{ℤ, pos, int_ltb, int_eq, ErrorCode, success, failure, Outcome, returns, aborts}
use rawr.Audio.Device.{AudioDevice, output_channels, input_channels}
use rawr.Audio.Stream.{AudioStream}

-- `channels && channels < stream->channelCount`
abbrev pub too_few : ℤ → ℤ → Bool
too_few channels channel_count = not (int_eq channels (pos 0)) && int_ltb channels channel_count

abbrev pub is_set : Option AudioDevice → Bool
is_set none = false
is_set (some device) = true

-- The two blocks of `rawr_AudioStream_AddDevice` that set a direction.
add_output : AudioStream → AudioDevice → ErrorCode × AudioStream
add_output stream dev =
    if int_eq (output_channels dev) (pos 0)
    then (success, stream)
    else if is_set stream.out_device
    then (failure, stream)
    else if int_ltb (output_channels dev) stream.channel_count
    then (failure, stream)
    else (success, record stream { out_device = some dev })

add_input : AudioStream → AudioDevice → ErrorCode × AudioStream
add_input stream dev =
    if int_eq (input_channels dev) (pos 0)
    then (success, stream)
    else if is_set stream.in_device
    then (failure, stream)
    else if int_ltb (input_channels dev) stream.channel_count
    then (failure, stream)
    else (success, record stream { in_device = some dev })

-- The second block, where the first did not return.
continue_with_input : AudioDevice → ErrorCode × AudioStream → ErrorCode × AudioStream
unfolding add_input
continue_with_input dev (success, stream) = add_input stream dev
continue_with_input dev (failure, stream) = (failure, stream)

pub add_device : AudioStream → AudioDevice → ErrorCode × AudioStream
unfolding add_output continue_with_input
add_device stream dev =
    if too_few (output_channels dev) stream.channel_count
    then (failure, stream)
    else if too_few (input_channels dev) stream.channel_count
    then (failure, stream)
    else continue_with_input dev (add_output stream dev)

-- The `PaStreamParameters` that the start passes.
pub record StreamParameters : Type 0 where
  pub channel_count : ℤ
  pub device : ℕ

-- The calls of PortAudio that the start and the stop make, in order.
pub data PaCall : Type 0 where
  open_stream : Option StreamParameters → Option StreamParameters → ℕ → ℤ → PaCall
  start_stream close_stream abort_stream stop_stream : PaCall

abbrev pub stream_parameters : ℤ → Option AudioDevice → Option StreamParameters
stream_parameters channel_count none = none
stream_parameters channel_count (some dev) =
    some (record { channel_count = channel_count; device = dev.id })

-- `pa_stream`: NULL, a stream that is open, or a pointer that is none, as to a stream that was closed.
pub data PaHandle : Type 0 where
  null opened invalid : PaHandle

-- `opens` and `starts` say whether `Pa_OpenStream` and `Pa_StartStream` succeed. `errCode` is -1
-- at the first and -2 at the second, so the abort at -3 is never reached. The last component is
-- `pa_stream`, which no path clears; `left` is what an open that fails leaves there.
pub start : PaHandle → Bool → Bool → AudioStream → ErrorCode × List PaCall × PaHandle
start left opens starts stream =
    let opening =
      open_stream (stream_parameters stream.channel_count stream.in_device)
        (stream_parameters stream.channel_count stream.out_device) stream.sample_rate
        stream.sample_count in
    if not opens
    then (failure, opening ∷ [], left)
    else if not starts
    then (failure, opening ∷ start_stream ∷ close_stream ∷ [], invalid)
    else (success, opening ∷ start_stream ∷ [], opened)

-- `rawr_AudioStream_Stop`, given what `Pa_StopStream` answers; it reads through a pointer that is no
-- stream, and refuses NULL.
pub stop : PaHandle → ℤ → Outcome (ℤ × List PaCall)
stop null answer = returns (answer, stop_stream ∷ [])
stop opened answer = returns (answer, stop_stream ∷ [])
stop invalid answer = aborts

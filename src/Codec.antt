-- ===== src/Codec.antt =====
-- src/Codec.c and include/rawr/Codec.h: the Opus encoder and decoder of a call. Opus itself is not
-- part of the repository's own code: what its functions return is the argument `Opus`.
pub mod Frames
pub mod Resources
mod Examples
use rawr.Common.{ℕ, ◌+◌, ◌*◌, ◌/◌, ◌≡◌, Bool, true, false, ◌&&◌, List, [], ◌∷◌, Option, none, some}
use rawr.Common.{◌==◌, leb, if◌then◌else◌, ErrorCode, success, failure, ℤ, pos, negsuc}
use rawr.Common.{Outcome, returns, aborts}

pub data CodecType : Type 0 where
  encoder decoder : CodecType

pub data CodecRate : Type 0 where
  rate_8k rate_16k rate_24k rate_48k : CodecRate

abbrev pub rate_value : CodecRate → ℕ
rate_value rate_8k = 8000
rate_value rate_16k = 16000
rate_value rate_24k = 24000
rate_value rate_48k = 48000

pub data CodecTiming : Type 0 where
  timing_5ms timing_10ms timing_20ms timing_40ms : CodecTiming
  timing_60ms timing_80ms timing_100ms timing_120ms : CodecTiming

abbrev pub timing_value : CodecTiming → ℕ
timing_value timing_5ms = 5
timing_value timing_10ms = 10
timing_value timing_20ms = 20
timing_value timing_40ms = 40
timing_value timing_60ms = 60
timing_value timing_80ms = 80
timing_value timing_100ms = 100
timing_value timing_120ms = 120

-- `RAWR_CODEC_OUTPUT_BYTES_MAX` and the sizes derived from it; a sample has two bytes.
abbrev pub output_bytes_max : ℕ
output_bytes_max = 1500

abbrev pub output_samples_max : ℕ
output_samples_max = 1500 / 2

abbrev pub input_samples_max : ℕ
input_samples_max = 5760

abbrev pub input_bytes_max : ℕ
input_bytes_max = 5760 * 2

-- Opus's `OPUS_FRAMESIZE_…` constants.
pub data FrameSizeCode : Type 0 where
  framesize_arg framesize_2_5_ms framesize_5_ms framesize_10_ms framesize_20_ms : FrameSizeCode
  framesize_40_ms framesize_60_ms framesize_80_ms framesize_100_ms framesize_120_ms : FrameSizeCode

unfoldable pub frame_size : ℕ → ℕ → ℕ
frame_size sample_rate timing = timing * 2 * (sample_rate / 2000)

unfoldable pub frame_size_code : ℕ → ℕ → FrameSizeCode
frame_size_code sample_rate sample_count =
    if sample_count == sample_rate / 400
    then framesize_2_5_ms
    else if sample_count == sample_rate / 200
    then framesize_5_ms
    else if sample_count == sample_rate / 100
    then framesize_10_ms
    else if sample_count == sample_rate / 50
    then framesize_20_ms
    else if sample_count == sample_rate / 25
    then framesize_40_ms
    else if sample_count == 3 * sample_rate / 50
    then framesize_60_ms
    else if sample_count == 4 * sample_rate / 50
    then framesize_80_ms
    else if sample_count == 5 * sample_rate / 50
    then framesize_100_ms
    else if sample_count == 6 * sample_rate / 50
    then framesize_120_ms
    else framesize_arg

-- The requests of `opus_encoder_ctl` that the code makes, and the values that it gives them.
pub data Ctl : Type 0 where
  set_bitrate set_force_channels set_vbr set_vbr_constraint set_complexity : Ctl
  set_max_bandwidth set_signal set_inband_fec set_packet_loss_perc set_lsb_depth : Ctl
  set_prediction_disabled set_dtx set_expert_frame_duration : Ctl

pub data CtlValue : Type 0 where
  number : ℕ → CtlValue
  auto bandwidth_fullband signal_voice : CtlValue
  frame_duration : FrameSizeCode → CtlValue

-- The static `codecConfig`, in the order in which `rawr_Codec_Setup` applies it.
pub settings : FrameSizeCode → List (Ctl × CtlValue)
settings code =
    (set_bitrate, auto)
    ∷ (set_force_channels, number 1)
    ∷ (set_vbr, number 1)
    ∷ (set_vbr_constraint, number 1)
    ∷ (set_complexity, number 5)
    ∷ (set_max_bandwidth, bandwidth_fullband)
    ∷ (set_signal, signal_voice)
    ∷ (set_inband_fec, number 0)
    ∷ (set_packet_loss_perc, number 5)
    ∷ (set_lsb_depth, number 8)
    ∷ (set_prediction_disabled, number 0)
    ∷ (set_dtx, number 1)
    ∷ (set_expert_frame_duration, frame_duration code)
    ∷ []

-- What the calls out of the file answer: whether `MN_MEM_ACQUIRE` finds memory for the codec and
-- for its private part, whether each of Opus's create functions sets `OPUS_OK` and returns a
-- pointer, whether a request returns `OPUS_OK`, and what coding a packet returns.
pub record Opus : Type 0 where
  pub codec_memory : Bool
  pub priv_memory : Bool
  pub encoder_ok : Bool
  pub encoder_pointer : Bool
  pub decoder_ok : Bool
  pub decoder_pointer : Bool
  pub encoder_ctl : Ctl → CtlValue → Bool
  pub encode : List ℕ → ℕ → ℤ
  pub decode : List ℕ → ℕ → ℤ

-- `priv->opus_enc` and `priv->opus_dec` are NULL or not.
pub record Codec : Type 0 where
  pub codec_type : CodecType
  pub sample_rate : ℕ
  pub frame_size : ℕ
  pub frame_size_code : FrameSizeCode
  pub opus_enc : Bool
  pub opus_dec : Bool

-- What is acquired and not released.
pub record Held : Type 0 where
  pub codec : Bool
  pub priv : Bool
  pub encoder : Bool
  pub decoder : Bool

abbrev pub nothing_held : Held
nothing_held = record { codec = false; priv = false; encoder = false; decoder = false }

-- The requests are made in order, up to the first that fails.
unfoldable pub apply_settings : Opus → List (Ctl × CtlValue) → Bool
apply_settings opus [] = true
apply_settings opus ((request, value) ∷ rest) =
    if opus.encoder_ctl request value then apply_settings opus rest else false

pub setup_encoder : Opus → Codec → ErrorCode × Option Codec × Held
setup_encoder opus codec =
    let held : Held = record {
      codec = true;
      priv = true;
      encoder = opus.encoder_pointer;
      decoder = false;
    } in
    let released : Held = record held { codec = false; priv = false } in
    if opus.encoder_ok && opus.encoder_pointer
    then (if apply_settings opus (settings codec.frame_size_code)
        then (success, some (record codec { opus_enc = true }), held)
        else (failure, none, released))
    else (failure, none, released)

pub setup_decoder : Opus → Codec → ErrorCode × Option Codec × Held
setup_decoder opus codec =
    let held : Held = record {
      codec = true;
      priv = true;
      encoder = false;
      decoder = opus.decoder_pointer;
    } in
    if opus.decoder_ok && opus.decoder_pointer
    then (success, some (record codec { opus_dec = true }), held)
    else (failure, none, record held { codec = false; priv = false })

-- `none` beside a failure: `*out_codec` is not to be used (it dangles where memory was released).
-- Of the two memory guards the second returns at once and releases nothing.
pub setup : Opus → CodecType → ℕ → ℕ → ErrorCode × Option Codec × Held
unfolding setup_encoder setup_decoder
setup opus codec_type sample_rate timing =
    if opus.codec_memory
    then (if opus.priv_memory
        then elim codec_type [
          | encoder ↦ setup_encoder opus fresh
          | decoder ↦ setup_decoder opus fresh
        ]
        else (failure, none, record nothing_held { codec = true }))
    else (failure, none, nothing_held)
  where
    fresh : Codec
    fresh = record {
      codec_type = codec_type;
      sample_rate = sample_rate;
      frame_size = frame_size sample_rate timing;
      frame_size_code = frame_size_code sample_rate (frame_size sample_rate timing);
      opus_enc = false;
      opus_dec = false;
    }

-- What was held before, less what the function destroys and releases.
pub cleanup : Codec → Held → Held
cleanup codec held = record {
  codec = false;
  priv = false;
  encoder = if codec.opus_enc then false else held.encoder;
  decoder = if codec.opus_dec then false else held.decoder;
}

-- `RAWR_ASSERT(0 <= out_bytes && out_bytes <= RAWR_CODEC_OUTPUT_BYTES_MAX)`
check_bytes : ℤ → Outcome ℤ
check_bytes (pos n) = if leb n output_bytes_max then returns (pos n) else aborts
check_bytes (negsuc n) = aborts

-- The number of bytes written to `outBuffer`.
unfoldable pub encode : Opus → Codec → List ℕ → Outcome ℤ
unfolding check_bytes
encode opus codec samples =
    if codec.opus_enc then check_bytes (opus.encode samples codec.frame_size) else aborts

-- `RAWR_ASSERT(out_samples == codec->frameSize)`
check_samples : ℕ → ℤ → Outcome ℤ
check_samples frame_size (pos n) = if n == frame_size then returns (pos n) else aborts
check_samples frame_size (negsuc n) = aborts

-- The number of samples written to `outBuffer`; Opus is told that it has room for
-- `RAWR_CODEC_INPUT_BYTES_MAX` samples.
pub decode : Opus → Codec → List ℕ → Outcome ℤ
unfolding check_samples
decode opus codec packet =
    if codec.opus_dec
    then check_samples codec.frame_size (opus.decode packet input_bytes_max)
    else aborts

-- ===== src/Codec/Frames.antt =====
-- Frame sizes: every rate and duration that the header offers has the number of samples of that
-- duration, and the code that Opus knows it by.
use rawr.Common.{◌*◌, ◌≤◌, ◌≡◌, refl, arith}
use rawr.Codec.{CodecRate, rate_8k, rate_value}
use rawr.Codec.{CodecTiming, timing_5ms, timing_10ms, timing_20ms, timing_40ms, timing_60ms}
use rawr.Codec.{timing_80ms, timing_100ms, timing_120ms, timing_value}
use rawr.Codec.{frame_size, frame_size_code, FrameSizeCode, input_samples_max}
use rawr.Codec.{framesize_5_ms, framesize_10_ms, framesize_20_ms, framesize_40_ms}
use rawr.Codec.{framesize_60_ms, framesize_80_ms, framesize_100_ms, framesize_120_ms}

-- The code for each duration of the header.
abbrev pub code_of : CodecTiming → FrameSizeCode
code_of timing_5ms = framesize_5_ms
code_of timing_10ms = framesize_10_ms
code_of timing_20ms = framesize_20_ms
code_of timing_40ms = framesize_40_ms
code_of timing_60ms = framesize_60_ms
code_of timing_80ms = framesize_80_ms
code_of timing_100ms = framesize_100_ms
code_of timing_120ms = framesize_120_ms

-- For every rate and duration of the header the frame has `rate * duration / 1000` samples, fits
-- the largest frame, and is given the code of that duration.
frame_size_lem :
    (rate : CodecRate) (timing : CodecTiming)
    → let samples = frame_size (rate_value rate) (timing_value timing) in
      (samples * 1000 ≡ rate_value rate * timing_value timing)
      × (samples ≤ input_samples_max)
      × (frame_size_code (rate_value rate) samples ≡ code_of timing)
unfolding frame_size frame_size_code
frame_size_lem rate_8k timing_5ms = (refl, omega arith, refl)
frame_size_lem rate timing = ground arith

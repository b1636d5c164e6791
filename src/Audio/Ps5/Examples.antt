-- ===== src/Audio/Ps5/Examples.antt =====
-- Runs of the PS5 streams.
use rawr.Common.{ℕ, ◌*◌, ◌≤◌, ◌≡◌, refl, arith, true, false, map}
use rawr.Common.{List, [], ◌∷◌, Option, none, some, length, pos, negsuc, failure}
use rawr.RingBuffer.{RingBuffer}
use rawr.RingBuffer.Invariant.{IsValid}
use rawr.Audio.Stream.{AudioStream, StreamMemory, sample_bytes, silence}
use rawr.Audio.Stream.Rings.{IsStream, length-silence}
use rawr.Audio.Stream.Setup.{Gives}
use rawr.Audio.Stream.Duplex.{run_duplex, duplex_of}
use rawr.Audio.Ps5.{Services, ps5_setup, grain, GrainTurn}
use rawr.Audio.Ps5.Setup.{left_behind, ps5_setup-left_behind}
use rawr.Audio.Ps5.Loop.{Ps5Event, audio_goes, call_reads, run_ps5, same_event, blank}
use rawr.Audio.Ps5.Loop.Refines.{run_ps5-run_duplex}

abbrev zeroes : ℕ → Option (List ℕ)
zeroes n = some (silence n)

abbrev memory : StreamMemory
memory = record { stream = true; private_part = true; data_to = zeroes; data_from = zeroes }

abbrev console : Services
console = record { user_service = true; audio_out = true; initial_user = true }

zeroes-Gives : (n : ℕ) → Gives zeroes n
zeroes-Gives n = (silence n, refl, length-silence n)

-- The private part has no memory.
ps5_setup-left_behind_example :
    let r = ps5_setup (record memory { private_part = false }) console 48000 (pos 1) (pos 2) in
    (r.0 ≡ failure)
    × (r.1 ≡ none)
    × (r.2 ≡ left_behind (record memory { private_part = false }) console (pos 2))
ps5_setup-left_behind_example =
    ps5_setup-left_behind (record memory { private_part = false }) console 48000 (pos 1) (pos 2)
      refl

-- A ring of 256 samples.
abbrev ring : ℕ → RingBuffer
ring write_index = record {
  buffer_size = 256;
  write_index = write_index;
  read_index = 0;
  big_mask = 511;
  small_mask = 255;
  element_size_bytes = 2;
  buffer = silence 512;
}

ring-IsValid : (write_index : ℕ) → write_index ≤ 256 → IsValid 8 (ring write_index)
ring-IsValid write_index h = record {
  order_le = omega arith;
  element_pos = omega arith;
  size_eq = refl;
  big_mask_eq = refl;
  small_mask_eq = refl;
  write_lt = omega (arith, h);
  read_lt = omega arith;
  used_le = ground (arith, h);
  storage = length-silence 512;
  fits = omega (arith, length-silence 512);
}

length-blank : length blank ≡ grain * sample_bytes
length-blank = length-silence (grain * sample_bytes)

grain_eq : pos 256 ≡ pos grain
unfolding grain
grain_eq = refl

-- Packets of two samples; there is a grain to play.
abbrev console_stream : AudioStream
console_stream = record {
  out_device = none;
  in_device = none;
  sample_rate = 48000;
  sample_capacity = 256;
  channel_count = pos 1;
  sample_count = pos 2;
  input_level = 0;
  output_level = 0;
  rb_to_device = ring 256;
  rb_from_device = ring 1;
}

console_stream-IsStream : IsStream 8 2 console_stream
console_stream-IsStream = record {
  to_device = ring-IsValid 256 (omega arith);
  from_device = ring-IsValid 1 (omega arith);
  to_samples = refl;
  from_samples = refl;
  packet_eq = refl;
  packet_le = omega arith;
}

-- The console takes and gives a grain, or fails to take one.
abbrev whole_grain : GrainTurn
whole_grain = record { output_result = pos 256; input_result = pos 256; inputs = blank }

abbrev failed_grain : GrainTurn
failed_grain = record { output_result = negsuc 0; input_result = pos 256; inputs = [] }

abbrev events : List Ps5Event
events = audio_goes whole_grain ∷ call_reads (1 ∷ 2 ∷ 3 ∷ 4 ∷ []) ∷ []

run_ps5-run_duplex_example :
    run_ps5 (λ bytes frames. 0) events blank console_stream
    ≡ some (run_duplex (duplex_of 2 console_stream) (map same_event events))
run_ps5-run_duplex_example =
    run_ps5-run_duplex (λ bytes frames. 0) events blank console_stream console_stream-IsStream
      length-blank (grain_eq, grain_eq, omega (arith, length-blank), omega arith)

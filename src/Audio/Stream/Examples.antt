-- ===== src/Audio/Stream/Examples.antt =====
-- Runs of the stream functions.
use rawr.Common.{ℕ, ◌*◌, ◌^◌, ◌≤◌, ◌<◌, ◌≡◌, refl, arith, true, false}
use rawr.Common.{List, [], ◌∷◌, Option, none, some, pos, u32}
use rawr.Common.{returns, ◌⊎◌}
use rawr.RingBuffer.{RingBuffer}
use rawr.RingBuffer.Invariant.{IsValid, used, contents}
use rawr.Audio.Device.{AudioDevice}
use rawr.Audio.Stream.{AudioStream, StreamMemory, made, stream_setup, ring_samples}
use rawr.Audio.Stream.{callback, silence}
use rawr.Audio.Stream.Rings.{IsStream, length-silence}
use rawr.Audio.Stream.Setup.{stream_setup-IsStream}
use rawr.Audio.Stream.Flow.{callback-flow, Played}
use rawr.Audio.Stream.{no_stream, no_private_part}
use rawr.Audio.Stream.Calls.Life.{
  cleaned_up, left_open, LifeCall, starts, stops, run_life, setup_keeps, successes,
}
use rawr.Audio.Stream.Calls.Life.{no_blocks, nothing_kept, stream_cleanup-setup_keeps}
use rawr.Audio.Stream.Calls.{null, opened}

-- A ring of four samples with some in it.
abbrev pub ring : ℕ → ℕ → List ℕ → RingBuffer
ring write_index read_index bytes = record {
  buffer_size = 4;
  write_index = write_index;
  read_index = read_index;
  big_mask = 7;
  small_mask = 3;
  element_size_bytes = 2;
  buffer = bytes;
}

-- Packets of two samples: one sample to be played, three recorded.
abbrev pub call_stream : AudioStream
call_stream = record {
  out_device = none;
  in_device = none;
  sample_rate = 48000;
  sample_capacity = 4;
  channel_count = pos 1;
  sample_count = pos 2;
  input_level = 0;
  output_level = 0;
  rb_to_device = ring 5 4 (50 ∷ 51 ∷ 0 ∷ 0 ∷ 0 ∷ 0 ∷ 0 ∷ 0 ∷ []);
  rb_from_device = ring 3 0 (10 ∷ 11 ∷ 20 ∷ 21 ∷ 30 ∷ 31 ∷ 0 ∷ 0 ∷ []);
}

abbrev pub packet_bytes : List ℕ
packet_bytes = 1 ∷ 2 ∷ 3 ∷ 4 ∷ []

ring_to-IsValid : IsValid 2 call_stream.rb_to_device
ring_to-IsValid = omega arith

ring_from-IsValid : IsValid 2 call_stream.rb_from_device
ring_from-IsValid = omega arith

pub call_stream-IsStream : IsStream 2 2 call_stream
call_stream-IsStream = record {
  to_device = ring_to-IsValid;
  from_device = ring_from-IsValid;
  to_samples = refl;
  from_samples = refl;
  packet_eq = refl;
  packet_le = omega arith;
}

-- A device and a buffer for each direction.
abbrev headset : AudioDevice
headset = record {
  device_info = record { name = []; max_input_channels = pos 1; max_output_channels = pos 2 };
  id = 3;
  props = 0;
  rates = 0;
}

abbrev zeroes : ℕ → Option (List ℕ)
zeroes n = some (silence n)

abbrev memory : StreamMemory
memory = record { stream = true; private_part = true; data_to = zeroes; data_from = zeroes }

stream_setup-IsStream_example :
    (order : ℕ) × (stream : AudioStream) × (stream_setup memory 48000 (pos 1) (pos 960)
      ≡ made stream)
    × IsStream order 960 stream
    × (used stream.rb_to_device ≡ 0)
    × (used stream.rb_from_device ≡ 0)
    × (9600 ≤ 2 ^ order)
    × (2 ^ order < 19200)
stream_setup-IsStream_example =
    stream_setup-IsStream 960 (omega arith) (omega arith) memory 48000 (pos 1) refl refl
      (_, refl, length-silence (u32 (ring_samples (pos 960) * 2)))
      (_, refl, length-silence (u32 (ring_samples (pos 960) * 2)))

callback-flow_example :
    (out : List ℕ) × (after : AudioStream) × (callback
        (λ samples frames. 7)
        false
        (some packet_bytes)
        (some packet_bytes)
        2
        call_stream
      ≡ returns (some out, after))
    × IsStream 2 2 after
    × Played 2 call_stream.rb_to_device packet_bytes 2 out after.rb_to_device
    × (contents after.rb_from_device ≡ 10 ∷ 11 ∷ 20 ∷ 21 ∷ 30 ∷ 31 ∷ 1 ∷ 2 ∷ [])
callback-flow_example =
    callback-flow call_stream-IsStream 2 packet_bytes (omega arith) (omega arith)
      (λ samples frames. 7) packet_bytes (omega arith)

-- A start that works, a stop, a start that opens nothing and leaves the pointer, another stop, and a
-- start that PortAudio does not let run.
abbrev two_starts : List LifeCall
two_starts =
    starts null true true
    ∷ stops (pos 0)
    ∷ starts opened false true
    ∷ stops (pos 0)
    ∷ starts null true false
    ∷ []

stream_cleanup-setup_keeps_example :
    (memory.stream ≡ true)
      × (memory.private_part ≡ true)
      × ((stream : AudioStream) × (stream_setup memory 48000 (pos 1) (pos 960) ≡ made stream)
          × (cleaned_up (run_life stream two_starts (setup_keeps memory (pos 960)))
              ≡ returns (left_open (successes stream two_starts))))
    ⊎ (memory.stream ≡ false)
      × (stream_setup memory 48000 (pos 1) (pos 960) ≡ no_stream)
      × (setup_keeps memory (pos 960) ≡ nothing_kept)
    ⊎ (memory.stream ≡ true)
      × (memory.private_part ≡ false)
      × (stream_setup memory 48000 (pos 1) (pos 960) ≡ no_private_part)
      × (setup_keeps memory (pos 960)
          ≡ record nothing_kept { blocks = record no_blocks { stream = true } })
stream_cleanup-setup_keeps_example =
    stream_cleanup-setup_keeps memory 48000 (pos 1) (pos 960) two_starts

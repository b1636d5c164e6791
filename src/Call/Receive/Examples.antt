-- ===== src/Call/Receive/Examples.antt =====
-- Runs of the receive handler.
use rawr.Common.{ℕ, ◌≡◌, refl, arith, true, false, List, [], ◌∷◌, Option, none, some}
use rawr.Common.{length, add_size, pos}
use rawr.RingBuffer.{RingBuffer}
use rawr.RingBuffer.Invariant.{IsValid}
use rawr.Codec.{Opus, Codec, decoder, framesize_20_ms}
use rawr.Audio.Stream.{AudioStream}
use rawr.Audio.Stream.Rings.{IsStream}
use rawr.Call.Receive.{Receiver, DeviceTurn, Packet, receive_all}
use rawr.Call.Receive.Playout.{heard_all, IsSound, Delivered, frames_of, receive_all-Delivered}
use rawr.Call.Receive.Counting.{HasCounted, counted_bytes, bytes_of, receive_all-counts}

-- An Opus that gives two samples for each packet, and its decoder.
abbrev opus_lib : Opus
opus_lib = record {
  codec_memory = true;
  priv_memory = true;
  encoder_ok = true;
  encoder_pointer = true;
  decoder_ok = true;
  decoder_pointer = true;
  encoder_ctl = λ request value. true;
  encode = λ samples size. pos 100;
  decode = λ packet size. pos 2;
}

abbrev voice : Codec
voice = record {
  codec_type = decoder;
  sample_rate = 8000;
  frame_size = 2;
  frame_size_code = framesize_20_ms;
  opus_enc = false;
  opus_dec = true;
}

abbrev ring : ℕ → List ℕ → RingBuffer
ring write_index bytes = record {
  buffer_size = 4;
  write_index = write_index;
  read_index = 0;
  big_mask = 7;
  small_mask = 3;
  element_size_bytes = 2;
  buffer = bytes;
}

-- Three of four samples are there, and a packet has two.
abbrev full_stream : AudioStream
full_stream = record {
  out_device = none;
  in_device = none;
  sample_rate = 8000;
  sample_capacity = 4;
  channel_count = pos 1;
  sample_count = pos 2;
  input_level = 0;
  output_level = 0;
  rb_to_device = ring 3 (10 ∷ 11 ∷ 20 ∷ 21 ∷ 30 ∷ 31 ∷ 0 ∷ 0 ∷ []);
  rb_from_device = ring 0 (0 ∷ 0 ∷ 0 ∷ 0 ∷ 0 ∷ 0 ∷ 0 ∷ 0 ∷ []);
}

ring_to-IsValid : IsValid 2 full_stream.rb_to_device
ring_to-IsValid = omega arith

ring_from-IsValid : IsValid 2 full_stream.rb_from_device
ring_from-IsValid = omega arith

full_stream-IsStream : IsStream 2 2 full_stream
full_stream-IsStream = record {
  to_device = ring_to-IsValid;
  from_device = ring_from-IsValid;
  to_samples = refl;
  from_samples = refl;
  packet_eq = refl;
  packet_le = omega arith;
}

abbrev receiver : Receiver
receiver = record {
  initialized = false;
  bytes_recv = 0;
  recv_total = 0;
  recv_rate = 0;
  last_recv_time = 0;
  recv_count = 0;
  output_samples = 0 ∷ 0 ∷ 0 ∷ 0 ∷ 0 ∷ 0 ∷ [];
  stream = full_stream;
}

-- The device takes one sample at a time.
abbrev one_sample : Option DeviceTurn
one_sample = some (record { inputs = 0 ∷ 0 ∷ []; outputs = 0 ∷ 0 ∷ []; frames = 1 })

abbrev device_turns : List (Option DeviceTurn)
device_turns = one_sample ∷ none ∷ one_sample ∷ one_sample ∷ one_sample ∷ []

abbrev packet_of : List ℕ → Packet
packet_of samples = record {
  first_now = 7;
  now = 7;
  left = 80;
  decrypts = true;
  payload = [];
  samples = samples;
  turns = device_turns;
}

packet_of-IsSound :
    (samples : List ℕ) → length samples ≡ 4 → IsSound opus_lib voice 2 (packet_of samples)
packet_of-IsSound samples e = record {
  decrypted = refl;
  decoded = refl;
  frame = e;
  turns = omega arith;
  enough = omega arith;
}

abbrev two_packets : List Packet
two_packets = packet_of (40 ∷ 41 ∷ 50 ∷ 51 ∷ []) ∷ packet_of (60 ∷ 61 ∷ 70 ∷ 71 ∷ []) ∷ []

receive_all-Delivered_example :
    Delivered 2 voice receiver
      (frames_of two_packets)
      2
      (receive_all (λ bytes frames. 0) opus_lib voice two_packets receiver)
      (heard_all (λ bytes frames. 0) opus_lib voice two_packets receiver)
receive_all-Delivered_example =
    receive_all-Delivered (λ bytes frames. 0) opus_lib voice refl (omega arith) two_packets
      (record { stream = full_stream-IsStream; space = omega arith })
      (
        packet_of-IsSound (40 ∷ 41 ∷ 50 ∷ 51 ∷ []) refl,
        (packet_of-IsSound (60 ∷ 61 ∷ 70 ∷ 71 ∷ []) refl, _),
      )

-- The second packet is counted too, and then fails to decrypt.
abbrev damaged : List Packet
damaged = packet_of (40 ∷ 41 ∷ 50 ∷ 51 ∷ []) ∷ record (packet_of []) { decrypts = false } ∷ []

receive_all-counts_example :
    HasCounted
      (add_size (counted_bytes receiver) (bytes_of damaged))
      (receive_all (λ bytes frames. 0) opus_lib voice damaged receiver)
receive_all-counts_example = receive_all-counts (λ bytes frames. 0) opus_lib voice damaged receiver

-- ===== src/Call/Send/Examples.antt =====
-- Runs of the send loop.
use rawr.Common.{ℕ, ◌≡◌, refl, true, false, [], ◌∷◌, if◌then◌else◌}
use rawr.Common.{◌*◌, ◌==◌, pos, arith}
use rawr.Codec.{Opus, Codec, encoder, framesize_20_ms, encode}
use rawr.Call.Send.{Turn, send_packets, start_sending}
use rawr.Call.Send.Numbering.{AreNumbered, CountsAll, send_packets-numbers}

-- An Opus that codes every frame into 100 bytes, and its encoder.
abbrev opus_lib : Opus
opus_lib = record {
  codec_memory = true;
  priv_memory = true;
  encoder_ok = true;
  encoder_pointer = true;
  decoder_ok = true;
  decoder_pointer = true;
  encoder_ctl = λ request value. true;
  encode = λ samples size. pos 100;
  decode = λ packet size. pos 960;
}

abbrev voice : Codec
voice = record {
  codec_type = encoder;
  sample_rate = 48000;
  frame_size = 960;
  frame_size_code = framesize_20_ms;
  opus_enc = true;
  opus_dec = false;
}

-- The stream has a packet at the second look; a second passes with each turn.
abbrev turn_at : ℕ → Turn
turn_at n = record {
  encodes_header = true;
  looks = 2;
  reads = λ look. if look == 0 then pos 0 else pos 960;
  samples = [];
  encrypts = true;
  sends = true;
  now = n * 1000000001;
  recv_count = 0;
}

-- Two turns send 308 bytes, all of them in the total by then.
send_two :
    (send_packets opus_lib voice false (start_sending 0 0 0) (turn_at 1 ∷ turn_at 2 ∷ [])).0
    ≡ record {
      header = record {
        marker = true;
        payload_type = 116;
        seq = 1024;
        timestamp = 960;
        ssrc = 3735887591;
      };
      bytes = 100;
    }
      ∷ record {
        header = record {
          marker = false;
          payload_type = 116;
          seq = 1025;
          timestamp = 1920;
          ssrc = 3735887591;
        };
        bytes = 100;
      }
      ∷ []
unfolding send_packets start_sending encode
send_two = refl

send_packets-numbers_example :
    AreNumbered 0
      (send_packets opus_lib voice false (start_sending 0 0 0) (turn_at 1 ∷ turn_at 2 ∷ [])).0
    × CountsAll 0
        (send_packets opus_lib voice false (start_sending 0 0 0) (turn_at 1 ∷ turn_at 2 ∷ []))
send_packets-numbers_example =
    send_packets-numbers opus_lib voice false (turn_at 1 ∷ turn_at 2 ∷ []) 0 0 (omega arith)

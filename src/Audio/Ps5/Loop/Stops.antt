-- ===== src/Audio/Ps5/Loop/Stops.antt =====
-- The audio thread of src/AudioPS5.c where the console fails.
use rawr.Common.{ℕ, ◌*◌, ◌≡◌, refl, ◌∙◌, arith, pos}
use rawr.Common.{List, length}
use rawr.Common.{◌⊎◌, inl, inr, is_negative, ◌==◌, ==_iff, true}
use rawr.RingBuffer.Queue.{queue_of}
use rawr.Audio.Stream.{AudioStream, sample_bytes}
use rawr.Audio.Stream.Rings.{IsStream}
use rawr.Audio.Stream.Duplex.{play_samples}
use rawr.Audio.Stream.Duplex.Packets.{play-play_samples}
use rawr.Audio.Ps5.Loop.{}
use rawr.Audio.Ps5.Loop.Whole.{grain_small}
use rawr.Audio.Ps5.{grain, GrainTurn, stops, exchange_grain, audio_turn}

-- The output fails, or takes a whole grain and the input fails.
abbrev pub Fails : GrainTurn → Type 0
Fails turn =
    (is_negative turn.output_result ≡ true)
    ⊎ ((turn.output_result ≡ pos grain) × (is_negative turn.input_result ≡ true))

exchange_grain-stops :
    (level : List ℕ → ℕ → ℕ) (turn : GrainTurn) (out : List ℕ) (stream : AudioStream)
    → Fails turn
    → exchange_grain level turn out stream ≡ stops out stream
unfolding exchange_grain
exchange_grain-stops level turn out stream (inl o) = rw o refl
exchange_grain-stops level turn out stream (inr (o, i)) =
    let whole : (grain == grain) ≡ true = (==_iff grain grain).1 refl in rw (o, whole, i) refl

-- Where the output fails, or the input after a whole grain of output, the audio thread ends. It has
-- then taken a grain from what was to be played, where there was one, recorded nothing, and left the
-- stream well formed.
audio_turn-stops :
    (level : List ℕ → ℕ → ℕ) (turn : GrainTurn) {order packet : ℕ} {stream : AudioStream}
    (outputs : List ℕ)
    → IsStream order packet stream
    → length outputs ≡ grain * sample_bytes
    → Fails turn
    → let played = play_samples (queue_of stream.rb_to_device) outputs grain in
      (after : AudioStream) × (audio_turn level turn outputs stream ≡ stops played.0 after)
      × IsStream order packet after
      × (queue_of after.rb_to_device ≡ played.1)
      × (after.rb_from_device ≡ stream.rb_from_device)
unfolding audio_turn
audio_turn-stops level turn {stream = stream} outputs s len fails =
    let (to_ring, sound, valid, same, is_rest) =
      play-play_samples s outputs grain (omega (arith, len)) grain_small in
    let after : AudioStream = record stream { rb_to_device = to_ring } in
    let out = (play_samples (queue_of stream.rb_to_device) outputs grain).0 in
    (
      after,
      rw (audio_turn, sound, exchange_grain-stops level turn out after fails) refl,
      record {
        to_device = valid;
        from_device = s.from_device;
        to_samples = same ∙ s.to_samples;
        from_samples = s.from_samples;
        packet_eq = s.packet_eq;
        packet_le = s.packet_le;
      },
      is_rest,
      refl,
    )

-- ===== src/Audio/Stream/Flow.antt =====
-- `rawr_AudioStream_Read`, `rawr_AudioStream_Write` and `rawr_AudioStream_AudioCallback`: what each
-- moves between its caller and the two rings.
use rawr.Common.{ℕ, ◌*◌, ◌^◌, ◌≤◌, ◌<◌, ◌≡◌, refl, ap, ◌∙◌, arith, min}
use rawr.Common.{true, false, List, ◌++◌, some, length, take, drop}
use rawr.Common.{◌⊎◌, inl, inr, returns}
use rawr.Common.Memory.{splice}
use rawr.RingBuffer.{RingBuffer, write}
use rawr.RingBuffer.Invariant.{
  IsValid, used, room, contents, get_read_available_lem, get_write_available_lem,
}
use rawr.RingBuffer.Write.{write-Written}
use rawr.RingBuffer.Read.{read-Taken}
use rawr.Audio.Stream.{AudioStream, sample_bytes, stream_read, stream_write, silence, mute}
use rawr.Audio.Stream.{play, callback, callback_buffers, has_frames}
use rawr.Audio.Stream.Rings.{IsStream, read-all, write-all}
use native.Mathlib.Decide.{dec_lt}

module _ {order packet : ℕ} {stream : AudioStream} (s : IsStream order packet stream)
    (bytes : List ℕ) (given : packet * sample_bytes ≤ length bytes) where
  given_from : packet * stream.rb_from_device.element_size_bytes ≤ length bytes
  given_from = rw s.from_samples given

  given_to : packet * stream.rb_to_device.element_size_bytes ≤ length bytes
  given_to = rw s.to_samples given

  -- A read of a well-formed stream, into an array with room for a packet, gives the oldest packet
  -- that the device recorded and removes it, or, where there is less than a packet, returns 0 and
  -- changes nothing.
  stream_read-packet :
      ((used stream.rb_from_device < packet) × (stream_read stream bytes ≡ some (0, bytes, stream)))
      ⊎ ((after : AudioStream) × (packet ≤ used stream.rb_from_device)
          × (stream_read stream bytes
              ≡ some (
                packet,
                splice bytes 0 (take (packet * sample_bytes) (contents stream.rb_from_device)),
                after,
              ))
          × IsStream order packet after
          × (after.rb_to_device ≡ stream.rb_to_device)
          × (contents after.rb_from_device
              ≡ drop (packet * sample_bytes) (contents stream.rb_from_device)))
  unfolding stream_read
  stream_read-packet = elim (dec_lt (used stream.rb_from_device) packet) [
    | yes few ↦
        inl (few, rw s.packet_eq (ground (arith, get_read_available_lem s.from_device, few)))
    | no enough ↦
        let t = read-Taken s.from_device bytes packet given_from in
        let all = read-all t (omega arith) in
        let after : AudioStream = record stream { rb_from_device = t.after } in
        inr (
          after,
          omega arith,
          rw s.packet_eq
              (ground (arith, get_read_available_lem s.from_device, enough, all.0, s.from_samples)),
          record {
            to_device = s.to_device;
            from_device = t.valid;
            to_samples = s.to_samples;
            from_samples = t.same_size.1 ∙ s.from_samples;
            packet_eq = s.packet_eq;
            packet_le = s.packet_le;
          },
          refl,
          all.1 ∙ ap (λ n. drop (packet * n) (contents stream.rb_from_device)) s.from_samples,
        )
  ]

  -- A write to a well-formed stream, from an array that holds a packet, appends the whole packet to
  -- what the device is to play, or, where there is no room for one, returns 0 and changes nothing.
  pub stream_write-packet :
      ((room stream.rb_to_device < packet) × (stream_write stream bytes ≡ some (0, stream)))
      ⊎ ((after : AudioStream) × (packet ≤ room stream.rb_to_device)
          × (stream_write stream bytes ≡ some (packet, after))
          × IsStream order packet after
          × (after.rb_from_device ≡ stream.rb_from_device)
          × (contents after.rb_to_device
              ≡ contents stream.rb_to_device ++ take (packet * sample_bytes) bytes))
  unfolding stream_write
  stream_write-packet = elim (dec_lt (room stream.rb_to_device) packet) [
    | yes few ↦ inl (few, rw s.packet_eq (ground (arith, get_write_available_lem s.to_device, few)))
    | no enough ↦
        let w = write-Written s.to_device bytes packet given_to in
        let all = write-all w (omega arith) in
        let after : AudioStream = record stream { rb_to_device = w.after } in
        inr (
          after,
          omega arith,
          rw s.packet_eq (ground (arith, get_write_available_lem s.to_device, enough, all.0)),
          record {
            to_device = w.valid;
            from_device = s.from_device;
            to_samples = w.same_size.1 ∙ s.to_samples;
            from_samples = s.from_samples;
            packet_eq = s.packet_eq;
            packet_le = s.packet_le;
          },
          refl,
          all.1 ∙ ap (λ n. contents stream.rb_to_device ++ take (packet * n) bytes) s.to_samples,
        )
  ]

-- What the callback plays from a ring: the oldest samples, as many as the device wants, or silence
-- with the ring left as it is where there are fewer.
pub data Played (order : ℕ) (rbuf : RingBuffer) (bytes : List ℕ) (frames : ℕ)
    : List ℕ → RingBuffer → Type 0 where
  silent :
      used rbuf < frames
      → Played order rbuf bytes frames (splice bytes 0 (silence (frames * sample_bytes))) rbuf
  sounds :
      (after : RingBuffer)
      → frames ≤ used rbuf
      → contents after ≡ drop (frames * sample_bytes) (contents rbuf)
      → Played order rbuf bytes frames
          (splice bytes 0 (take (frames * sample_bytes) (contents rbuf)))
          after

module _ {order packet : ℕ} {stream : AudioStream} (s : IsStream order packet stream) (frames : ℕ)
    (outputs : List ℕ) (space : frames * sample_bytes ≤ length outputs)
    (small : frames < 2 ^ 63) where
  play_lem :
      (out : List ℕ) × (after : RingBuffer) × (play stream.rb_to_device outputs frames
        ≡ some (out, after))
      × IsValid order after
      × (after.element_size_bytes ≡ sample_bytes)
      × Played order stream.rb_to_device outputs frames out after
  unfolding play mute
  play_lem = elim (dec_lt (used stream.rb_to_device) frames) [
    | yes few ↦ (
      splice outputs 0 (silence (frames * sample_bytes)),
      stream.rb_to_device,
      ground (arith, get_read_available_lem s.to_device, few, space, small),
      s.to_device,
      s.to_samples,
      silent few,
    )
    | no enough ↦
        let t = read-Taken s.to_device outputs frames (rw s.to_samples space) in
        let all = read-all t (omega arith) in
        (
          splice outputs 0 (take (frames * sample_bytes) (contents stream.rb_to_device)),
          t.after,
          ground (arith, get_read_available_lem s.to_device, enough, all.0, s.to_samples),
          t.valid,
          t.same_size.1 ∙ s.to_samples,
          sounds t.after (omega arith)
              (all.1 ∙ ap (λ n. drop (frames * n) (contents stream.rb_to_device)) s.to_samples),
        )
  ]

  pub callback_returns :
      (level : List ℕ → ℕ → ℕ) (inputs : List ℕ) {out : List ℕ} {to_ring from_ring : RingBuffer}
      {count : ℕ}
      → frames * sample_bytes ≤ length inputs
      → play stream.rb_to_device outputs frames ≡ some (out, to_ring)
      → write stream.rb_from_device inputs frames ≡ some (count, from_ring)
      → callback level false (some inputs) (some outputs) frames stream
        ≡ returns (
          some out,
          record stream {
            input_level = level inputs frames;
            output_level = level outputs frames;
            rb_to_device = to_ring;
            rb_from_device = from_ring;
          },
        )
  unfolding callback callback_buffers
  callback_returns level inputs given plays writes =
      let input_fits : has_frames inputs frames ≡ true = ground (arith, given) in
      let output_fits : has_frames outputs frames ≡ true = ground (arith, space) in
      rw (callback, callback_buffers, input_fits, output_fits, plays, writes) refl

  -- The callback of a well-formed stream outside priming, given a buffer for each direction that is
  -- as large as the frames asked for, fewer than 2^63, never leaves an array. It plays the oldest
  -- samples written to the stream, or silence where they are too few, appends the recorded samples
  -- as far as there is room, and keeps the stream well formed.
  pub callback-flow :
      (level : List ℕ → ℕ → ℕ) (inputs : List ℕ)
      → frames * sample_bytes ≤ length inputs
      → (out : List ℕ) × (after : AudioStream) × (callback level false
            (some inputs)
            (some outputs)
            frames
            stream
          ≡ returns (some out, after))
        × IsStream order packet after
        × Played order stream.rb_to_device outputs frames out after.rb_to_device
        × (contents after.rb_from_device
            ≡ contents stream.rb_from_device
              ++ take (min frames (room stream.rb_from_device) * sample_bytes) inputs)
  callback-flow level inputs given =
      let (out, to_ring, plays, to_valid, to_samples, played) = play_lem in
      let w = write-Written s.from_device inputs frames (rw s.from_samples given) in
      let after : AudioStream = record stream {
        input_level = level inputs frames;
        output_level = level outputs frames;
        rb_to_device = to_ring;
        rb_from_device = w.after;
      } in
      (
        out,
        after,
        callback_returns level inputs given plays w.returns,
        record {
          to_device = to_valid;
          from_device = w.valid;
          to_samples = to_samples;
          from_samples = w.same_size.1 ∙ s.from_samples;
          packet_eq = s.packet_eq;
          packet_le = s.packet_le;
        },
        played,
        w.appended
            ∙ ap
                (λ n.
                  contents stream.rb_from_device
                  ++ take (min frames (room stream.rb_from_device) * n) inputs)
                s.from_samples,
      )

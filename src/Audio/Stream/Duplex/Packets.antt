-- ===== src/Audio/Stream/Duplex/Packets.antt =====
-- A packet read or written, and what the device plays, on the rings and on the queues.
use rawr.Common.{ℕ, ◌*◌, ◌^◌, ◌≤◌, ◌<◌, ◌≡◌, refl, ◌∙◌, arith}
use rawr.Common.{List, some, length}
use rawr.RingBuffer.{RingBuffer}
use rawr.RingBuffer.Invariant.{IsValid, used, room, get_read_available_lem, get_write_available_lem}
use rawr.RingBuffer.Write.{write-Written}
use rawr.RingBuffer.Read.{read-Taken}
use rawr.RingBuffer.Queue.{Queue, put, get, queue_of, put-queue_of, get-queue_of}
use rawr.Audio.Stream.{AudioStream, sample_bytes, stream_read, stream_write, mute, play}
use rawr.Audio.Stream.Rings.{IsStream}
use native.Mathlib.Decide.{dec_lt}
use rawr.Audio.Stream.Duplex.{read_packet, write_packet, muted, play_samples, duplex_of}

module _ {order packet : ℕ} {stream : AudioStream} (s : IsStream order packet stream) where
  to_ring-IsStream :
      {ring : RingBuffer}
      → IsValid order ring
      → ring.element_size_bytes ≡ stream.rb_to_device.element_size_bytes
      → IsStream order packet (record stream { rb_to_device = ring })
  to_ring-IsStream v e = record {
    to_device = v;
    from_device = s.from_device;
    to_samples = e ∙ s.to_samples;
    from_samples = s.from_samples;
    packet_eq = s.packet_eq;
    packet_le = s.packet_le;
  }

  from_ring-IsStream :
      {ring : RingBuffer}
      → IsValid order ring
      → ring.element_size_bytes ≡ stream.rb_from_device.element_size_bytes
      → IsStream order packet (record stream { rb_from_device = ring })
  from_ring-IsStream v e = record {
    to_device = s.to_device;
    from_device = v;
    to_samples = s.to_samples;
    from_samples = e ∙ s.from_samples;
    packet_eq = s.packet_eq;
    packet_le = s.packet_le;
  }

  -- A packet read.
  module _ (bytes : List ℕ) (given : packet * sample_bytes ≤ length bytes) where
    abbrev recorded : Queue
    recorded = queue_of stream.rb_from_device

    abbrev queued : Queue
    queued = queue_of stream.rb_to_device

    pub stream_read-read_packet :
        (after : AudioStream) × (stream_read stream bytes
          ≡ some
              ((read_packet packet recorded bytes).0, (read_packet packet recorded bytes).1, after))
        × IsStream order packet after
        × (duplex_of packet after ≡ record (duplex_of packet stream) {
          from_device = (read_packet packet recorded bytes).2;
        })
    unfolding read_packet stream_read
    stream_read-read_packet = elim (dec_lt (used stream.rb_from_device) packet) [
      | yes few ↦
          let code : stream_read stream bytes ≡ some (0, bytes, stream) =
            rw s.packet_eq (ground (arith, get_read_available_lem s.from_device, few)) in
          let queue : read_packet packet recorded bytes ≡ (0, bytes, recorded) =
            ground (arith, few) in
          rw queue (stream, code, s, refl)
      | no enough ↦
          let t = read-Taken s.from_device bytes packet (rw s.from_samples given) in
          let queue : read_packet packet recorded bytes ≡ get recorded bytes packet =
            ground (arith, enough) in
          rw (queue, get-queue_of t)
            (
              record stream { rb_from_device = t.after },
              rw s.packet_eq
                  (ground (arith, get_read_available_lem s.from_device, enough, t.returns)),
              from_ring-IsStream t.valid t.same_size.1,
              refl,
            )
    ]

    pub stream_write-write_packet :
        (after : AudioStream) × (stream_write stream bytes
          ≡ some ((write_packet packet queued bytes).0, after))
        × IsStream order packet after
        × (duplex_of packet after
            ≡ record (duplex_of packet stream) { to_device = (write_packet packet queued bytes).1 })
    unfolding write_packet stream_write
    stream_write-write_packet = elim (dec_lt (room stream.rb_to_device) packet) [
      | yes few ↦
          let code : stream_write stream bytes ≡ some (0, stream) =
            rw s.packet_eq (ground (arith, get_write_available_lem s.to_device, few)) in
          let queue : write_packet packet queued bytes ≡ (0, queued) = ground (arith, few) in
          rw queue (stream, code, s, refl)
      | no enough ↦
          let w = write-Written s.to_device bytes packet (rw s.to_samples given) in
          let queue : write_packet packet queued bytes ≡ put queued bytes packet =
            ground (arith, enough) in
          rw (queue, put-queue_of w)
            (
              record stream { rb_to_device = w.after },
              rw s.packet_eq
                  (ground (arith, get_write_available_lem s.to_device, enough, w.returns)),
              to_ring-IsStream w.valid w.same_size.1,
              refl,
            )
    ]

  -- What the device plays.
  pub play-play_samples :
      (outputs : List ℕ) (frames : ℕ)
      → frames * sample_bytes ≤ length outputs
      → frames < 2 ^ 63
      → (after : RingBuffer) × (play stream.rb_to_device outputs frames
          ≡ some ((play_samples (queue_of stream.rb_to_device) outputs frames).0, after))
        × IsValid order after
        × (after.element_size_bytes ≡ stream.rb_to_device.element_size_bytes)
        × (queue_of after ≡ (play_samples (queue_of stream.rb_to_device) outputs frames).1)
  unfolding play mute play_samples
  play-play_samples outputs frames space small = elim (dec_lt (used stream.rb_to_device) frames) [
    | yes few ↦
        let queue : play_samples (queue_of stream.rb_to_device) outputs frames
            ≡ (muted outputs frames, queue_of stream.rb_to_device) =
          ground (arith, few) in
        rw queue (
          stream.rb_to_device,
          ground (arith, get_read_available_lem s.to_device, few, space, small),
          s.to_device,
          refl,
          refl,
        )
    | no enough ↦
        let t = read-Taken s.to_device outputs frames (rw s.to_samples space) in
        let got = get (queue_of stream.rb_to_device) outputs frames in
        let queue : play_samples (queue_of stream.rb_to_device) outputs frames ≡ (got.1, got.2) =
          ground (arith, enough) in
        rw (queue, get-queue_of t)
          (
            t.after,
            ground (arith, get_read_available_lem s.to_device, enough, t.returns),
            t.valid,
            t.same_size.1,
            refl,
          )
  ]

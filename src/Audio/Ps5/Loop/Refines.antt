-- ===== src/Audio/Ps5/Loop/Refines.antt =====
-- The audio thread of src/AudioPS5.c and the threads of a call: they see the two queues that the
-- callback of src/AudioPA.c shows.
use rawr.Common.{ℕ, ◌*◌, ◌≤◌, ◌≡◌, refl, sym, ap, ◌∙◌, arith, pos, false, map}
use rawr.Common.{List, [], ◌∷◌, Option, some, length}
use rawr.Common.{◌==◌, ==_iff, true}
use rawr.RingBuffer.{RingBuffer, write}
use rawr.RingBuffer.Write.{write-Written}
use rawr.RingBuffer.Queue.{Queue, queue_of, put-queue_of}
use rawr.Audio.Stream.{AudioStream, sample_bytes, play}
use rawr.Audio.Stream.Rings.{IsStream}
use rawr.Audio.Stream.Duplex.{
  thread_reads, thread_writes, Answer, plays, Duplex, play_samples, device_turn, event_turn,
  run_duplex, duplex_of,
}
use rawr.Audio.Stream.Duplex.Packets.{
  stream_read-read_packet, stream_write-write_packet, play-play_samples,
}
use rawr.Audio.Ps5.Loop.{
  Ps5Event, audio_goes, call_reads, call_writes, ps5_event, run_ps5, blank, same_event, AreServed,
}
use rawr.Audio.Ps5.Loop.Whole.{play_samples-whole, grain_small}
use rawr.Audio.Ps5.{
  grain, GrainTurn, goes_on, exchange_grain, record_grain, audio_turn, ps5_read, ps5_write,
}

-- A turn to which the console answers with whole grains.
served :
    (level : List ℕ → ℕ → ℕ) (turn : GrainTurn) (outputs : List ℕ) (stream : AudioStream)
    {out : List ℕ} {to_ring from_ring : RingBuffer} {n : ℕ}
    → turn.output_result ≡ pos grain
    → turn.input_result ≡ pos grain
    → play stream.rb_to_device outputs grain ≡ some (out, to_ring)
    → write stream.rb_from_device turn.inputs grain ≡ some (n, from_ring)
    → audio_turn level turn outputs stream
      ≡ goes_on out (record stream {
        input_level = level turn.inputs grain;
        output_level = level out grain;
        rb_to_device = to_ring;
        rb_from_device = from_ring;
      })
unfolding audio_turn exchange_grain record_grain
served level turn outputs stream o i sound writes =
    let whole : (grain == grain) ≡ true = (==_iff grain grain).1 refl in
    rw (audio_turn, sound, exchange_grain, o, i, whole, record_grain, writes) refl

-- The code's event goes as the queues' does, and leaves a well-formed stream that stands for them and
-- an array of one grain.
abbrev Follows :
    (order packet : ℕ) → Option (Answer × List ℕ × AudioStream) → Answer × Duplex → Type 0
Follows order packet result (answer, d) =
    (out : List ℕ) × (after : AudioStream) × (result ≡ some (answer, out, after))
    × (length out ≡ grain * sample_bytes)
    × IsStream order packet after
    × (duplex_of packet after ≡ d)

module _ {order packet : ℕ} {stream : AudioStream} (s : IsStream order packet stream)
    (level : List ℕ → ℕ → ℕ) (outputs : List ℕ) (len : length outputs ≡ grain * sample_bytes) where
  audio_goes-Follows :
      (turn : GrainTurn)
      → turn.output_result ≡ pos grain
      → turn.input_result ≡ pos grain
      → grain * sample_bytes ≤ length turn.inputs
      → Follows order packet
          (ps5_event level (audio_goes turn) outputs stream)
          (device_turn false turn.inputs blank grain (duplex_of packet stream))
  unfolding ps5_event device_turn
  audio_goes-Follows turn o i given =
      let (to_ring, played, valid, same, is_rest) =
        play-play_samples s outputs grain (omega (arith, len)) grain_small in
      let (as_blank, len_out) = play_samples-whole stream.rb_to_device outputs s.to_samples len in
      let w = write-Written s.from_device turn.inputs grain (rw s.from_samples given) in
      let out = (play_samples (queue_of stream.rb_to_device) outputs grain).0 in
      let after : AudioStream = record stream {
        input_level = level turn.inputs grain;
        output_level = level out grain;
        rb_to_device = to_ring;
        rb_from_device = w.after;
      } in
      (
        out,
        after,
        rw (ps5_event, served level turn outputs stream o i played w.returns)
            (ap (λ (p : List ℕ × Queue). some (plays (some p.0), out, after)) as_blank),
        len_out,
        record {
          to_device = valid;
          from_device = w.valid;
          to_samples = same ∙ s.to_samples;
          from_samples = w.same_size.1 ∙ s.from_samples;
          packet_eq = s.packet_eq;
          packet_le = s.packet_le;
        },
        λ j. record {
          packet = packet;
          to_device = (is_rest ∙ ap (λ (p : List ℕ × Queue). p.1) as_blank) j;
          from_device = ap (λ (r : ℕ × Queue). r.1) (sym (put-queue_of w)) j;
        },
      )

  call_reads-Follows :
      (bytes : List ℕ)
      → packet * sample_bytes ≤ length bytes
      → Follows order packet
          (ps5_event level (call_reads bytes) outputs stream)
          (event_turn (thread_reads bytes) (duplex_of packet stream))
  unfolding ps5_event ps5_read event_turn
  call_reads-Follows bytes given =
      let (after, code, valid, queues) = stream_read-read_packet s bytes given in
      (outputs, after, rw (ps5_event, code) refl, len, valid, queues)

  call_writes-Follows :
      (bytes : List ℕ)
      → packet * sample_bytes ≤ length bytes
      → Follows order packet
          (ps5_event level (call_writes bytes) outputs stream)
          (event_turn (thread_writes bytes) (duplex_of packet stream))
  unfolding ps5_event ps5_write event_turn
  call_writes-Follows bytes given =
      let (after, code, valid, queues) = stream_write-write_packet s bytes given in
      (outputs, after, rw (ps5_event, code) refl, len, valid, queues)

-- The rest of a run after an event.
run_ps5-next :
    {order packet : ℕ} (level : List ℕ → ℕ → ℕ) (event : Ps5Event) (events : List Ps5Event)
    (outputs : List ℕ) (stream : AudioStream) {turn : Answer × Duplex}
    → Follows order packet (ps5_event level event outputs stream) turn
    → ((out : List ℕ) (after : AudioStream)
        → length out ≡ grain * sample_bytes
        → IsStream order packet after
        → run_ps5 level events out after
          ≡ some (run_duplex (duplex_of packet after) (map same_event events)))
    → run_ps5 level (event ∷ events) outputs stream
      ≡ some (turn.0 ∷ run_duplex turn.1 (map same_event events))
unfolding run_ps5
run_ps5-next level event events outputs stream {turn = (answer, d)}
      (out, after, code, len, valid, queues) rest =
    rw (run_ps5, code, rest out after len valid)
      (ap (λ q. some (answer ∷ run_duplex q (map same_event events))) queues)

-- The audio thread of the PS5, where the console takes and gives whole grains of 256 samples, and the
-- threads of a call, with arrays that hold a packet, see in every order of their events what they see
-- over PortAudio where the device asks for 256 frames: the same two queues of samples.
pub run_ps5-run_duplex :
    (level : List ℕ → ℕ → ℕ) (events : List Ps5Event) {order packet : ℕ} (outputs : List ℕ)
    (stream : AudioStream)
    → IsStream order packet stream
    → length outputs ≡ grain * sample_bytes
    → AreServed packet events
    → run_ps5 level events outputs stream
      ≡ some (run_duplex (duplex_of packet stream) (map same_event events))
unfolding run_duplex event_turn
run_ps5-run_duplex level [] outputs stream s len fed = unfold run_ps5 in refl
run_ps5-run_duplex level (audio_goes turn ∷ events) outputs stream s len (o, i, given, fed) =
    run_ps5-next level (audio_goes turn) events outputs stream
      (audio_goes-Follows s level outputs len turn o i given)
      λ out after l v. run_ps5-run_duplex level events out after v l fed
run_ps5-run_duplex level (call_reads bytes ∷ events) outputs stream s len fed =
    run_ps5-next level (call_reads bytes) events outputs stream
      (call_reads-Follows s level outputs len bytes fed.0)
      λ out after l v. run_ps5-run_duplex level events out after v l fed.1
run_ps5-run_duplex level (call_writes bytes ∷ events) outputs stream s len fed =
    run_ps5-next level (call_writes bytes) events outputs stream
      (call_writes-Follows s level outputs len bytes fed.0)
      λ out after l v. run_ps5-run_duplex level events out after v l fed.1

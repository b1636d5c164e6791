-- ===== src/Audio/Stream/Duplex/Refines.antt =====
-- The streams of src/AudioPA.c are two queues, over every sequence of events.
use rawr.Common.{ℕ, ◌≡◌, refl, sym, ap, ◌∙◌, arith}
use rawr.Common.{true, false, List, [], ◌∷◌, Option, some}
use rawr.RingBuffer.Invariant.{}
use rawr.RingBuffer.Write.{write-Written}
use rawr.RingBuffer.Queue.{Queue, put-queue_of}
use rawr.Audio.Stream.{AudioStream, mute}
use rawr.Audio.Stream.{callback}
use rawr.Audio.Stream.Flow.{callback_returns}
use rawr.Audio.Stream.Duplex.Packets.{
  stream_read-read_packet, stream_write-write_packet, play-play_samples,
}
use rawr.Audio.Stream.Rings.{IsStream}
use rawr.Audio.Stream.Duplex.{
  Event, device_calls, thread_reads, thread_writes, Answer, Duplex, device_turn, event_turn,
  run_duplex, stream_turn, also_answers, run_stream, IsFed, AreFed, duplex_of,
}

-- The code's event goes as the queues' does, and leaves a well-formed stream that stands for them.
abbrev pub Follows : (order packet : ℕ) → Option (Answer × AudioStream) → Answer × Duplex → Type 0
Follows order packet result (answer, d) =
    (after : AudioStream) × (result ≡ some (answer, after))
    × IsStream order packet after
    × (duplex_of packet after ≡ d)

module _ {order packet : ℕ} {stream : AudioStream} (s : IsStream order packet stream)
    (level : List ℕ → ℕ → ℕ) where
  primed-Follows :
      (inputs outputs : List ℕ) (frames : ℕ)
      → IsFed packet (device_calls true inputs outputs frames)
      → Follows order packet
          (stream_turn level (device_calls true inputs outputs frames) stream)
          (device_turn true inputs outputs frames (duplex_of packet stream))
  unfolding stream_turn device_turn mute callback
  primed-Follows inputs outputs frames (given, space, small) =
      (stream, ground (arith, space, small), s, refl)

  plays-Follows :
      (inputs outputs : List ℕ) (frames : ℕ)
      → IsFed packet (device_calls false inputs outputs frames)
      → Follows order packet
          (stream_turn level (device_calls false inputs outputs frames) stream)
          (device_turn false inputs outputs frames (duplex_of packet stream))
  unfolding stream_turn device_turn
  plays-Follows inputs outputs frames (given, space, small) =
      let (to_ring, played, valid, same, is_rest) =
        play-play_samples s outputs frames space small in
      let w = write-Written s.from_device inputs frames (rw s.from_samples given) in
      let after : AudioStream = record stream {
        input_level = level inputs frames;
        output_level = level outputs frames;
        rb_to_device = to_ring;
        rb_from_device = w.after;
      } in
      (
        after,
        rw
            (
              stream_turn,
              callback_returns s frames outputs space small level inputs given played w.returns,
            )
            refl,
        record {
          to_device = valid;
          from_device = w.valid;
          to_samples = same ∙ s.to_samples;
          from_samples = w.same_size.1 ∙ s.from_samples;
          packet_eq = s.packet_eq;
          packet_le = s.packet_le;
        },
        λ i. record {
          packet = packet;
          to_device = is_rest i;
          from_device = ap (λ (r : ℕ × Queue). r.1) (sym (put-queue_of w)) i;
        },
      )

  event_turn-Follows :
      (event : Event)
      → IsFed packet event
      → Follows order packet
          (stream_turn level event stream)
          (event_turn event (duplex_of packet stream))
  unfolding event_turn stream_turn
  event_turn-Follows (device_calls true inputs outputs frames) fed =
      primed-Follows inputs outputs frames fed
  event_turn-Follows (device_calls false inputs outputs frames) fed =
      plays-Follows inputs outputs frames fed
  event_turn-Follows (thread_reads bytes) fed =
      let (after, code, valid, queues) = stream_read-read_packet s bytes fed in
      (after, rw (stream_turn, code) refl, valid, queues)
  event_turn-Follows (thread_writes bytes) fed =
      let (after, code, valid, queues) = stream_write-write_packet s bytes fed in
      (after, rw (stream_turn, code) refl, valid, queues)

run_stream-turns :
    (level : List ℕ → ℕ → ℕ) (stream : AudioStream) (event : Event) (events : List Event)
    {answer : Answer} {after : AudioStream}
    → stream_turn level event stream ≡ some (answer, after)
    → run_stream level stream (event ∷ events) ≡ also_answers answer (run_stream level after events)
unfolding run_stream
run_stream-turns level stream event events e = rw (e, run_stream) refl

-- No sequence of events tells a well-formed stream from two queues of samples: turns of the device,
-- with buffers as large as the frames asked for, fewer than 2^63, in priming or not, and reads and
-- writes by the call's threads, with arrays that hold a packet. The device gets what the threads
-- wrote, in order, or silence where that is too little; the threads get, packet by packet, what the
-- device recorded and found room for; and no access leaves an array.
pub run_stream-run_duplex :
    (level : List ℕ → ℕ → ℕ) (events : List Event) {order packet : ℕ} {stream : AudioStream}
    → IsStream order packet stream
    → AreFed packet events
    → run_stream level stream events ≡ some (run_duplex (duplex_of packet stream) events)
unfolding run_duplex also_answers
run_stream-run_duplex level [] s fed = unfold run_stream in refl
run_stream-run_duplex level (event ∷ events) {packet = packet} {stream = stream} s fed =
    let (after, code, valid, queues) = event_turn-Follows s level event fed.0 in
    let answer = (event_turn event (duplex_of packet stream)).0 in
    run_stream-turns level stream event events code
    ∙ ap (also_answers answer) (run_stream-run_duplex level events valid fed.1)
    ∙ ap (λ d. some (answer ∷ run_duplex d events)) queues

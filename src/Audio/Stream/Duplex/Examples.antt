-- ===== src/Audio/Stream/Duplex/Examples.antt =====
-- A run of a stream's events.
use rawr.Common.{ℕ, ◌≡◌, refl, arith, true, false, List, [], ◌∷◌, some}
use rawr.Audio.Stream.Examples.{call_stream, call_stream-IsStream, packet_bytes}
use rawr.Audio.Stream.Duplex.{
  Event, device_calls, thread_reads, thread_writes, plays, reads_packet, writes_packet, read_packet,
  write_packet, play_samples, device_turn, event_turn, run_duplex, run_stream, duplex_of,
}
use rawr.RingBuffer.Queue.{put, get}
use rawr.Audio.Stream.Duplex.Refines.{run_stream-run_duplex}

abbrev silent_level : List ℕ → ℕ → ℕ
silent_level bytes frames = 0

-- The device asks for two samples where one is there, then for two where three are; in between, a
-- packet is written, and one is read.
abbrev events : List Event
events =
    device_calls false packet_bytes packet_bytes 2
    ∷ thread_writes packet_bytes
    ∷ device_calls true packet_bytes packet_bytes 1
    ∷ thread_reads packet_bytes
    ∷ device_calls false packet_bytes packet_bytes 2
    ∷ []

-- Only one recorded sample found room.
run_duplex-events :
    run_duplex (duplex_of 2 call_stream) events
    ≡ plays (some (0 ∷ 0 ∷ 0 ∷ 0 ∷ []))
      ∷ writes_packet 2
      ∷ plays (some (0 ∷ 0 ∷ 3 ∷ 4 ∷ []))
      ∷ reads_packet 2 (10 ∷ 11 ∷ 20 ∷ 21 ∷ [])
      ∷ plays (some (50 ∷ 51 ∷ 1 ∷ 2 ∷ []))
      ∷ []
unfolding run_duplex event_turn device_turn read_packet write_packet play_samples put get
run_duplex-events = refl

run_stream-run_duplex_example :
    run_stream silent_level call_stream events ≡ some (run_duplex (duplex_of 2 call_stream) events)
run_stream-run_duplex_example =
    run_stream-run_duplex silent_level events call_stream-IsStream (omega arith)

-- ===== src/Audio/Ps5/Loop.antt =====
-- The audio thread of src/AudioPS5.c and the threads of a call, whose events come in any order.
pub mod Whole
pub mod Refines
pub mod Stops
use rawr.Common.{ℕ, ◌*◌, ◌≤◌, ◌≡◌, ℤ, pos, false, List, [], ◌∷◌, Option, none, some, length}
use rawr.Audio.Stream.{AudioStream, sample_bytes, silence}
use rawr.Audio.Stream.Duplex.{
  Event, device_calls, thread_reads, thread_writes, Answer, plays, reads_packet, writes_packet,
}
use rawr.Audio.Ps5.{grain, GrainTurn, goes_on, stops, crashes, audio_turn, ps5_read, ps5_write}

-- A turn of the audio thread, a read or a write of a packet.
pub data Ps5Event : Type 0 where
  audio_goes : GrainTurn → Ps5Event
  call_reads : List ℕ → Ps5Event
  call_writes : List ℕ → Ps5Event

-- An event with `outputSamples`; `none` is an end of the audio thread.
pub ps5_event :
    (List ℕ → ℕ → ℕ) → Ps5Event → List ℕ → AudioStream → Option (Answer × List ℕ × AudioStream)
ps5_event level (audio_goes turn) outputs stream = elim (audio_turn level turn outputs stream) [
  | goes_on out after ↦ some (plays (some out), out, after)
  | stops out after ↦ none
  | crashes ↦ none
]
ps5_event level (call_reads bytes) outputs stream = elim (ps5_read stream bytes) [
  | none ↦ none
  | some (n, out, after) ↦ some (reads_packet n out, outputs, after)
]
ps5_event level (call_writes bytes) outputs stream = elim (ps5_write stream bytes) [
  | none ↦ none
  | some (n, after) ↦ some (writes_packet n, outputs, after)
]

pub run_ps5 : (List ℕ → ℕ → ℕ) → List Ps5Event → List ℕ → AudioStream → Option (List Answer)
unfolding ps5_event
run_ps5 level [] outputs stream = some []
run_ps5 level (event ∷ events) outputs stream = elim (ps5_event level event outputs stream) [
  | none ↦ none
  | some (answer, out, after) ↦ elim (run_ps5 level events out after) [
    | none ↦ none
    | some answers ↦ some (answer ∷ answers)
  ]
]

-- A grain of silence, as `outputSamples` is at first.
abbrev pub blank : List ℕ
blank = silence (grain * sample_bytes)

-- The event of the callback's interface.
abbrev pub same_event : Ps5Event → Event
same_event (audio_goes turn) = device_calls false turn.inputs blank grain
same_event (call_reads bytes) = thread_reads bytes
same_event (call_writes bytes) = thread_writes bytes

-- The console takes and gives whole grains, and the arrays hold a packet.
abbrev pub AreServed : ℕ → List Ps5Event → Type 0
AreServed packet [] = Unit
AreServed packet (audio_goes turn ∷ events) =
    (turn.output_result ≡ pos grain)
    × (turn.input_result ≡ pos grain)
    × (grain * sample_bytes ≤ length turn.inputs)
    × AreServed packet events
AreServed packet (call_reads bytes ∷ events) =
    (packet * sample_bytes ≤ length bytes) × AreServed packet events
AreServed packet (call_writes bytes ∷ events) =
    (packet * sample_bytes ≤ length bytes) × AreServed packet events

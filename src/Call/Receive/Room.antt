-- ===== src/Call/Receive/Room.antt =====
-- The wait for room in the stream ends, because the device makes room.
use rawr.Common.{ℕ, zero, suc, ◌+◌, ◌-◌, ◌*◌, ◌^◌, ◌≤◌, ◌<◌, ◌≡◌, refl, sym, ap, ◌∙◌, arith}
use rawr.Common.{inl, inr, List, [], ◌∷◌, ◌++◌, Option, none, some, length}
use rawr.Common.{returns, aborts, false, length-take, take-append_left, take_of_length_le}
use rawr.Common.Memory.{splice}
use rawr.Common.{length-drop, take, drop, append_assoc, take-append-drop}
use rawr.RingBuffer.{RingBuffer}
use rawr.RingBuffer.Invariant.{length-contents, used, room, contents}
use rawr.Audio.Stream.{AudioStream, sample_bytes, stream_write, callback}
use rawr.Audio.Stream.Rings.{IsStream}
use rawr.Audio.Stream.Flow.{stream_write-packet, callback-flow, Played, silent, sounds}
use rawr.Call.Receive.{DeviceTurn, device_goes, Wait, writes, wait_for_room}

-- A callback of some frames, fewer than 2^63, with buffers for them, that leaves room for a packet
-- in a ring of 2 ^ order samples.
abbrev pub IsTurn : ℕ → ℕ → Option DeviceTurn → Type 0
IsTurn order packet none = Unit
IsTurn order packet (some turn) =
    (turn.frames * sample_bytes ≤ length turn.inputs)
    × (turn.frames * sample_bytes ≤ length turn.outputs)
    × (0 < turn.frames)
    × (turn.frames < 2 ^ 63)
    × (turn.frames + packet ≤ 2 ^ order)

abbrev pub AreTurns : ℕ → ℕ → List (Option DeviceTurn) → Type 0
AreTurns order packet [] = Unit
AreTurns order packet (turn ∷ turns) = IsTurn order packet turn × AreTurns order packet turns

-- The callbacks among them.
abbrev pub callbacks : List (Option DeviceTurn) → ℕ
callbacks [] = 0
callbacks (none ∷ turns) = callbacks turns
callbacks (some turn ∷ turns) = suc (callbacks turns)

-- The bytes that the device plays in a callback: the front of its output buffer after it.
abbrev pub turn_sound : (List ℕ → ℕ → ℕ) → Option DeviceTurn → AudioStream → List ℕ
turn_sound level none stream = []
turn_sound level (some turn) stream =
    elim (callback level false (some turn.inputs) (some turn.outputs) turn.frames stream) [
      | aborts ↦ []
      | returns (none, after) ↦ []
      | returns (some out, after) ↦ take (turn.frames * sample_bytes) out
    ]

turn_sound-returns :
    (level : List ℕ → ℕ → ℕ) (turn : DeviceTurn) (stream : AudioStream) {out : List ℕ}
    {after : AudioStream}
    → callback level false (some turn.inputs) (some turn.outputs) turn.frames stream
      ≡ returns (some out, after)
    → turn_sound level (some turn) stream ≡ take (turn.frames * sample_bytes) out
turn_sound-returns level turn stream goes = rw (turn_sound, goes) refl

-- The bytes that the device plays while the handler waits.
unfoldable pub heard : (List ℕ → ℕ → ℕ) → List ℕ → List (Option DeviceTurn) → AudioStream → List ℕ
heard level bytes [] stream = []
heard level bytes (turn ∷ turns) stream = elim (stream_write stream bytes) [
  | none ↦ []
  | some (zero, same) ↦
      turn_sound level turn same
      ++ elim (device_goes level turn same) [ none ↦ [] | some next ↦ heard level bytes turns next ]
  | some (suc n, after) ↦ []
]

-- A write that ends the wait: the whole packet stands behind what was there, of which the device has
-- played a part from the front.
pub record Written (order packet : ℕ) (bytes : List ℕ) (stream : AudioStream) (wait : Wait)
    (played : List ℕ) : Type 0 where
  pub after : AudioStream
  pub wait_eq : wait ≡ writes packet after
  pub valid : IsStream order packet after
  pub in_order :
      played ++ contents after.rb_to_device
      ≡ contents stream.rb_to_device ++ take (packet * sample_bytes) bytes

-- The front of an output buffer that was written from its start.
take-splice :
    (n : ℕ) (outputs new : List ℕ)
    → n ≤ length new
    → take n (splice outputs 0 (take n new)) ≡ take n new
take-splice n outputs new fits =
    let len = length-take n new in
    take-append_left n (take n new) (drop (0 + length (take n new)) outputs)
      (omega (arith, len, fits))
    ∙ take_of_length_le n (take n new) (omega (arith, len))

-- What a callback plays where there are samples enough.
takes_front :
    {order frames : ℕ} {before after : RingBuffer} {outputs out : List ℕ}
    → Played order before outputs frames out after
    → before.element_size_bytes ≡ sample_bytes
    → frames ≤ used before
    → (take (frames * sample_bytes) out ++ contents after ≡ contents before)
      × (contents after ≡ drop (frames * sample_bytes) (contents before))
takes_front (silent few) size there = absurd (omega arith)
takes_front {frames = frames} {before = before} {outputs = outputs} (sounds after enough rest) size
      there =
    let k = frames * sample_bytes in
    let len : length (contents before) ≡ used before * 2 =
      length-contents before ∙ ap (λ n. used before * n) size in
    let front = take-splice k outputs (contents before) (omega (arith, len, there)) in
    (
      ap (λ c. c ++ contents after) front
          ∙ ap (λ c. take k (contents before) ++ c) rest
          ∙ take-append-drop k (contents before),
      rest,
    )

used-drop :
    (frames : ℕ) (before after : RingBuffer)
    → before.element_size_bytes ≡ sample_bytes
    → after.element_size_bytes ≡ sample_bytes
    → contents after ≡ drop (frames * sample_bytes) (contents before)
    → used after ≡ used before - frames
used-drop frames before after b a e =
    let len = ap length e ∙ length-drop (frames * sample_bytes) (contents before) in
    let l1 : length (contents before) ≡ used before * 2 =
      length-contents before ∙ ap (λ n. used before * n) b in
    let l2 : length (contents after) ≡ used after * 2 =
      length-contents after ∙ ap (λ n. used after * n) a in
    omega (arith, len, l1, l2)

module _ {order packet : ℕ} {stream : AudioStream} (s : IsStream order packet stream)
    (level : List ℕ → ℕ → ℕ) where
  -- A callback of a stream without room for a packet takes frames from it.
  device_goes-takes :
      (turn : DeviceTurn)
      → IsTurn order packet (some turn)
      → room stream.rb_to_device < packet
      → (after : AudioStream) × (device_goes level (some turn) stream ≡ some after)
        × IsStream order packet after
        × (used after.rb_to_device < used stream.rb_to_device)
        × (turn_sound level (some turn) stream ++ contents after.rb_to_device
            ≡ contents stream.rb_to_device)
  unfolding device_goes
  device_goes-takes turn (given, space, some_frames, small, leaves) full =
      let (out, after, goes, valid, plays, recorded) =
        callback-flow s turn.frames turn.outputs space small level turn.inputs given in
      let there : turn.frames ≤ used stream.rb_to_device =
        omega (arith, full, leaves, s.to_device.size_eq) in
      let (in_order, rest) = takes_front plays s.to_samples there in
      let left =
        used-drop turn.frames stream.rb_to_device after.rb_to_device s.to_samples valid.to_samples
          rest in
      (
        after,
        rw (device_goes, goes) refl,
        valid,
        omega (arith, left, some_frames, there),
        ap (λ c. c ++ contents after.rb_to_device) (turn_sound-returns level turn stream goes)
            ∙ in_order,
      )

-- A stream's write returns at the first look that finds room.
wait_for_room-step :
    (level : List ℕ → ℕ → ℕ) (bytes : List ℕ) (turns : List (Option DeviceTurn))
    (stream : AudioStream) {after : AudioStream} {packet : ℕ}
    → 0 < packet
    → stream_write stream bytes ≡ some (packet, after)
    → wait_for_room level bytes turns stream ≡ writes packet after
unfolding wait_for_room
wait_for_room-step level bytes [] stream {packet = zero} pos e = absurd (omega arith)
wait_for_room-step level bytes [] stream {packet = suc n} pos e = rw (wait_for_room, e) refl
wait_for_room-step level bytes (turn ∷ turns) stream {packet = zero} pos e = absurd (omega arith)
wait_for_room-step level bytes (turn ∷ turns) stream {packet = suc n} pos e =
    rw (wait_for_room, e) refl

wait_for_room-again :
    (level : List ℕ → ℕ → ℕ) (bytes : List ℕ) (turn : Option DeviceTurn)
    (turns : List (Option DeviceTurn)) (stream : AudioStream) {next : AudioStream}
    → stream_write stream bytes ≡ some (0, stream)
    → device_goes level turn stream ≡ some next
    → wait_for_room level bytes (turn ∷ turns) stream ≡ wait_for_room level bytes turns next
unfolding wait_for_room
wait_for_room-again level bytes turn turns stream e goes = rw (wait_for_room, e, goes) refl

heard-none :
    (level : List ℕ → ℕ → ℕ) (bytes : List ℕ) (turns : List (Option DeviceTurn))
    (stream : AudioStream) {after : AudioStream} {packet : ℕ}
    → 0 < packet
    → stream_write stream bytes ≡ some (packet, after)
    → heard level bytes turns stream ≡ []
unfolding heard
heard-none level bytes [] stream pos e = refl
heard-none level bytes (turn ∷ turns) stream {packet = zero} pos e = absurd (omega arith)
heard-none level bytes (turn ∷ turns) stream {packet = suc n} pos e = rw (heard, e) refl

heard-again :
    (level : List ℕ → ℕ → ℕ) (bytes : List ℕ) (turn : Option DeviceTurn)
    (turns : List (Option DeviceTurn)) (stream : AudioStream) {next : AudioStream}
    → stream_write stream bytes ≡ some (0, stream)
    → device_goes level turn stream ≡ some next
    → heard level bytes (turn ∷ turns) stream
      ≡ turn_sound level turn stream ++ heard level bytes turns next
unfolding heard
heard-again level bytes turn turns stream e goes = rw (heard, e, goes) refl

-- What was there at a look without room stands in for the stream at the next.
from_next_look :
    {order packet : ℕ} {bytes : List ℕ} {stream next : AudioStream} {wait again : Wait}
    (played : List ℕ) {later all : List ℕ}
    → wait ≡ again
    → all ≡ played ++ later
    → played ++ contents next.rb_to_device ≡ contents stream.rb_to_device
    → Written order packet bytes next again later
    → Written order packet bytes stream wait all
from_next_look {packet = packet} {bytes = bytes} {next = next} played {later = later} e parts shows
      w =
    let new = take (packet * sample_bytes) bytes in
    record {
      after = w.after;
      wait_eq = e ∙ w.wait_eq;
      valid = w.valid;
      in_order =
          ap (λ c. c ++ contents w.after.rb_to_device) parts
          ∙ append_assoc played later (contents w.after.rb_to_device)
          ∙ ap (λ c. played ++ c) w.in_order
          ∙ sym (append_assoc played (contents next.rb_to_device) new)
          ∙ ap (λ c. c ++ new) shows;
    }

room_found :
    {order packet : ℕ} {bytes : List ℕ} {stream after : AudioStream} (level : List ℕ → ℕ → ℕ)
    (turns : List (Option DeviceTurn))
    → 0 < packet
    → stream_write stream bytes ≡ some (packet, after)
    → IsStream order packet after
    → contents after.rb_to_device
      ≡ contents stream.rb_to_device ++ take (packet * sample_bytes) bytes
    → Written order packet bytes stream
        (wait_for_room level bytes turns stream)
        (heard level bytes turns stream)
room_found {bytes = bytes} {stream = stream} {after = after} level turns some_samples e valid
      appended =
    record {
      after = after;
      wait_eq = wait_for_room-step level bytes turns stream some_samples e;
      valid = valid;
      in_order =
          ap (λ c. c ++ contents after.rb_to_device)
            (heard-none level bytes turns stream some_samples e)
          ∙ appended;
    }

-- The wait of the receive handler for room in a well-formed stream, with an array that holds a
-- packet, ends in the write of that whole packet behind what the stream held, once the device has
-- made as many callbacks as the stream held samples to play. Each callback is for at least one frame
-- and fewer than 2^63, has buffers for them, and its frames fit into the ring beside a packet; what
-- stands in its output buffers after them is what stood in front.
pub wait_for_room-Written :
    (level : List ℕ → ℕ → ℕ) (bytes : List ℕ) (turns : List (Option DeviceTurn)) {order packet : ℕ}
    {stream : AudioStream}
    → IsStream order packet stream
    → 0 < packet
    → packet * sample_bytes ≤ length bytes
    → AreTurns order packet turns
    → used stream.rb_to_device ≤ callbacks turns
    → Written order packet bytes stream
        (wait_for_room level bytes turns stream)
        (heard level bytes turns stream)
unfolding device_goes
wait_for_room-Written level bytes [] {stream = stream} s some_samples given are enough =
    elim (stream_write-packet s bytes given) [
      | inr (after, fits, writes_it, valid, same, appended) ↦
          room_found level [] some_samples writes_it valid appended
      | inl (full, writes_none) ↦
          absurd (omega (arith, full, enough, s.packet_le, s.to_device.size_eq))
    ]
wait_for_room-Written level bytes (none ∷ turns) {stream = stream} s some_samples given are enough =
    elim (stream_write-packet s bytes given) [
      | inr (after, fits, writes_it, valid, same, appended) ↦
          room_found level (none ∷ turns) some_samples writes_it valid appended
      | inl (full, writes_none) ↦
          from_next_look [] (wait_for_room-again level bytes none turns stream writes_none refl)
            (heard-again level bytes none turns stream writes_none refl) refl
            (wait_for_room-Written level bytes turns s some_samples given are.1 enough)
    ]
wait_for_room-Written level bytes (some turn ∷ turns) {stream = stream} s some_samples given are
      enough =
    elim (stream_write-packet s bytes given) [
      | inr (after, fits, writes_it, valid, same, appended) ↦
          room_found level (some turn ∷ turns) some_samples writes_it valid appended
      | inl (full, writes_none) ↦
          let (next, goes, valid, less, shows) = device_goes-takes s level turn are.0 full in
          from_next_look (turn_sound level (some turn) stream)
            (wait_for_room-again level bytes (some turn) turns stream writes_none goes)
            (heard-again level bytes (some turn) turns stream writes_none goes) shows
            (wait_for_room-Written level bytes turns valid some_samples given are.1
              (omega (arith, less, enough)))
    ]

-- ===== src/Call/Receive/Playout.antt =====
-- What comes of the packets that a call receives: their samples are played in order, and all their
-- bytes are counted.
use rawr.Common.{ℕ, ◌*◌, ◌^◌, ◌≤◌, ◌<◌, ◌≡◌, refl, sym, ap, subst, ◌∙◌, arith, true}
use rawr.Common.{inl, inr, Bool-cases, List, [], ◌∷◌, ◌++◌, length, take, ltb}
use rawr.Common.{append_assoc, append-nil, take-append_left, take_of_length_le}
use rawr.Common.{add_size, sub_size, pos}
use rawr.Common.Memory.{splice, length-splice}
use rawr.RingBuffer.Invariant.{contents}
use rawr.Audio.Stream.{AudioStream, sample_bytes}
use rawr.Audio.Stream.Rings.{IsStream}
use rawr.Codec.{Opus, Codec, input_bytes_max}
use rawr.Codec.Resources.{decode_frame}
use rawr.Call.Send.{wait_ns}
use rawr.Call.Receive.{
  Receiver, Packet, begin, count_packet, Handled, received, after_wait, after_decode, play_packet,
  decode_packet, on_rtp, receive_all,
}
use rawr.Call.Receive.Room.{AreTurns, callbacks, heard, wait_for_room-Written}
use rawr.Call.Receive.{dropped, waiting, crashed}
use rawr.Common.{ap₂}

-- A packet that is decrypted, and that Opus decodes to one frame, which is a packet of the stream;
-- while the handler waits, the device makes as many callbacks as the ring can hold samples.
pub record IsSound (opus : Opus) (decoder : Codec) (order : ℕ) (packet : Packet) : Type 0 where
  pub decrypted : packet.decrypts ≡ true
  pub decoded : opus.decode packet.payload input_bytes_max ≡ pos decoder.frame_size
  pub frame : length packet.samples ≡ decoder.frame_size * sample_bytes
  pub turns : AreTurns order decoder.frame_size packet.turns
  pub enough : 2 ^ order ≤ callbacks packet.turns

abbrev pub AreSound : Opus → Codec → ℕ → List Packet → Type 0
AreSound opus decoder order [] = Unit
AreSound opus decoder order (packet ∷ packets) =
    IsSound opus decoder order packet × AreSound opus decoder order packets

-- The samples of all packets.
abbrev pub frames_of : List Packet → List ℕ
frames_of [] = []
frames_of (packet ∷ packets) = packet.samples ++ frames_of packets

-- A receiver whose stream takes the decoder's frames.
pub record IsReady (order : ℕ) (decoder : Codec) (r : Receiver) : Type 0 where
  pub stream : IsStream order decoder.frame_size r.stream
  pub space : decoder.frame_size * sample_bytes ≤ length r.output_samples

-- The bytes that the device plays while the handler waits with one packet, and with all in turn.
abbrev pub heard_at : (List ℕ → ℕ → ℕ) → Packet → Receiver → List ℕ
heard_at level packet r =
    heard level (splice r.output_samples 0 packet.samples) packet.turns r.stream

abbrev pub heard_all : (List ℕ → ℕ → ℕ) → Opus → Codec → List Packet → Receiver → List ℕ
heard_all level opus decoder [] r = []
heard_all level opus decoder (packet ∷ packets) r =
    heard_at level packet r ++ elim (on_rtp level opus decoder packet r) [
      | received after ↦ heard_all level opus decoder packets after
      | dropped after ↦ heard_all level opus decoder packets after
      | waiting after ↦ []
      | crashed ↦ []
    ]

-- All frames are in the stream, or were played before.
pub record Delivered (order : ℕ) (decoder : Codec) (r : Receiver) (frames : List ℕ) (count : ℕ)
    (result : Handled) (played : List ℕ) : Type 0 where
  pub after : Receiver
  pub returns : result ≡ received after
  pub ready : IsReady order decoder after
  pub in_order :
      played ++ contents after.stream.rb_to_device ≡ contents r.stream.rb_to_device ++ frames
  pub count_eq : add_size after.recv_count 0 ≡ add_size r.recv_count count

-- Counting touches neither the samples nor the stream.
abbrev SamePlayout : Receiver → Receiver → Type 0
SamePlayout r after =
    (after.stream ≡ r.stream)
    × (after.output_samples ≡ r.output_samples)
    × (after.recv_count ≡ r.recv_count)

begin-SamePlayout : (now : ℕ) (r : Receiver) → SamePlayout r (begin now r)
unfolding begin
begin-SamePlayout now r = elim (Bool-cases r.initialized) [
  | inl on ↦ rw on (refl, refl, refl)
  | inr off ↦ rw off (refl, refl, refl)
]

count_packet-SamePlayout : (now left : ℕ) (r : Receiver) → SamePlayout r (count_packet now left r)
unfolding count_packet
count_packet-SamePlayout now left r =
    elim (Bool-cases (ltb wait_ns (sub_size now r.last_recv_time))) [
      | inl due ↦ rw due (refl, refl, refl)
      | inr early ↦ rw early (refl, refl, refl)
    ]

heard_all-received :
    (level : List ℕ → ℕ → ℕ) (opus : Opus) (decoder : Codec) (packet : Packet)
    (packets : List Packet) (r : Receiver) {after : Receiver}
    → on_rtp level opus decoder packet r ≡ received after
    → heard_all level opus decoder (packet ∷ packets) r
      ≡ heard_at level packet r ++ heard_all level opus decoder packets after
heard_all-received level opus decoder packet packets r e = rw (heard_all, e) refl

module _ (level : List ℕ → ℕ → ℕ) (opus : Opus) (decoder : Codec) {order : ℕ}
    (there : decoder.opus_dec ≡ true) (some_samples : 0 < decoder.frame_size) where
  -- One frame, from the decryption on.
  decode_packet-Delivered :
      (packet : Packet) {r : Receiver}
      → IsReady order decoder r
      → IsSound opus decoder order packet
      → Delivered order decoder r packet.samples 1
          (decode_packet level opus decoder packet r)
          (heard_at level packet r)
  unfolding decode_packet after_decode play_packet after_wait
  decode_packet-Delivered packet {r} ready sound =
      let out = splice r.output_samples 0 packet.samples in
      let len =
        length-splice r.output_samples 0 packet.samples (omega (arith, sound.frame, ready.space)) in
      let given : decoder.frame_size * sample_bytes ≤ length out =
        omega (arith, len, ready.space) in
      let w =
        wait_for_room-Written level out packet.turns ready.stream some_samples given sound.turns (
          omega (
            arith, sound.enough, ready.stream.to_device.used_le, ready.stream.to_device.size_eq,
          )) in
      let frame_is : take (decoder.frame_size * sample_bytes) out ≡ packet.samples =
        take-append_left (decoder.frame_size * sample_bytes) packet.samples _
          (omega (arith, sound.frame))
        ∙ take_of_length_le (decoder.frame_size * sample_bytes) packet.samples
            (omega (arith, sound.frame)) in
      record {
        after = record r {
          output_samples = out;
          stream = w.after;
          recv_count = add_size r.recv_count 1;
        };
        returns =
            rw
              (
                sound.decrypted,
                decode_frame opus decoder packet.payload there sound.decoded,
                w.wait_eq,
              )
              refl;
        ready = record { stream = w.valid; space = given };
        in_order = w.in_order ∙ ap (λ f. contents r.stream.rb_to_device ++ f) frame_is;
        count_eq = omega arith;
      }

  on_rtp-Delivered :
      (packet : Packet) {r : Receiver}
      → IsReady order decoder r
      → IsSound opus decoder order packet
      → Delivered order decoder r packet.samples 1
          (on_rtp level opus decoder packet r)
          (heard_at level packet r)
  unfolding on_rtp
  on_rtp-Delivered packet {r} ready sound =
      let begun = begin packet.first_now r in
      let counted = count_packet packet.now packet.left begun in
      let b = begin-SamePlayout packet.first_now r in
      let c = count_packet-SamePlayout packet.now packet.left begun in
      let same_stream : counted.stream ≡ r.stream = c.0 ∙ b.0 in
      let ready_counted : IsReady order decoder counted = record {
        stream = subst (IsStream order decoder.frame_size) (sym same_stream) ready.stream;
        space = rw (c.1 ∙ b.1) ready.space;
      } in
      let d = decode_packet-Delivered packet ready_counted sound in
      let same_heard : heard_at level packet counted ≡ heard_at level packet r =
        ap₂ (λ o t. heard level (splice o 0 packet.samples) packet.turns t) (c.1 ∙ b.1)
          same_stream in
      record {
        after = d.after;
        returns = d.returns;
        ready = d.ready;
        in_order =
            ap (λ h. h ++ contents d.after.stream.rb_to_device) (sym same_heard)
            ∙ d.in_order
            ∙ ap (λ (s : AudioStream). contents s.rb_to_device ++ packet.samples) same_stream;
        count_eq = d.count_eq ∙ ap (λ n. add_size n 1) (c.2 ∙ b.2);
      }

  -- Packets that are decrypted and that Opus decodes to one frame of the stream each arrive at a call
  -- with a decoder and a well-formed stream. While the handler waits for room at one of them, the
  -- device makes as many callbacks as the ring can hold samples, each of at least one frame and
  -- fewer than 2^63, with buffers for them, and with frames that fit into the ring beside a packet.
  -- Then every packet is handled to its end and counted, and what stands in the output buffers of
  -- these callbacks after them, followed by what the stream still holds to be played, is what it held
  -- before followed by the frames of all packets in order.
  pub receive_all-Delivered :
      (packets : List Packet) {r : Receiver}
      → IsReady order decoder r
      → AreSound opus decoder order packets
      → Delivered order decoder r
          (frames_of packets)
          (length packets)
          (receive_all level opus decoder packets r)
          (heard_all level opus decoder packets r)
  unfolding receive_all
  receive_all-Delivered [] {r} ready sound = record {
    after = r;
    returns = refl;
    ready = ready;
    in_order = sym (append-nil (contents r.stream.rb_to_device));
    count_eq = refl;
  }
  receive_all-Delivered (packet ∷ packets) {r} ready sound =
      let first = on_rtp-Delivered packet ready sound.0 in
      let rest = receive_all-Delivered packets first.ready sound.1 in
      let held = contents r.stream.rb_to_device in
      let played = heard_at level packet r in
      record {
        after = rest.after;
        returns = rw (receive_all, first.returns) rest.returns;
        ready = rest.ready;
        in_order =
            ap (λ h. h ++ contents rest.after.stream.rb_to_device)
              (heard_all-received level opus decoder packet packets r first.returns)
            ∙ append_assoc played (heard_all level opus decoder packets first.after)
                (contents rest.after.stream.rb_to_device)
            ∙ ap (λ c. played ++ c) rest.in_order
            ∙ sym
                (append_assoc played (contents first.after.stream.rb_to_device) (frames_of packets))
            ∙ ap (λ c. c ++ frames_of packets) first.in_order
            ∙ append_assoc held packet.samples (frames_of packets);
        count_eq = omega (arith, first.count_eq, rest.count_eq);
      }

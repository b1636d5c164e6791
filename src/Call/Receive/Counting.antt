-- ===== src/Call/Receive/Counting.antt =====
-- Every byte that a call receives is counted once, whatever becomes of the packet.
use rawr.Common.{ℕ, ◌+◌, ◌≡◌, refl, ap, subst, ◌∙◌, arith, true}
use rawr.Common.{inl, inr, Bool-cases, List, [], ◌∷◌, ltb, if◌then◌else◌}
use rawr.Common.{add_size, sub_size, ℤ, pos, negsuc, Outcome, returns, aborts}
use rawr.Codec.{Opus, Codec, decode}
use rawr.Call.Send.{overhead_bytes, wait_ns}
use rawr.Common.Memory.{splice}
use rawr.Call.Receive.{
  Wait, after_wait, after_decode, Receiver, Packet, begin, count_packet, wait_for_room, faults,
  finds_no_room, writes, Handled, received, dropped, waiting, crashed, play_packet, decode_packet,
  on_rtp, receive_all,
}

-- What was counted, whether or not it is in the total yet.
abbrev pub counted_bytes : Receiver → ℕ
counted_bytes r = if r.initialized then add_size r.recv_total r.bytes_recv else 0

-- The bytes of the packets with their headers.
abbrev pub bytes_of : List Packet → ℕ
bytes_of [] = 0
bytes_of (packet ∷ packets) = packet.left + overhead_bytes + bytes_of packets

-- The handler has counted these bytes, unless it does not return.
abbrev pub HasCounted : ℕ → Handled → Type 0
HasCounted bytes (received after) = counted_bytes after ≡ bytes
HasCounted bytes (dropped after) = counted_bytes after ≡ bytes
HasCounted bytes (waiting after) = Unit
HasCounted bytes crashed = Unit

begin-counts :
    (now : ℕ) (r : Receiver)
    → ((begin now r).initialized ≡ true) × (counted_bytes (begin now r) ≡ counted_bytes r)
unfolding begin
begin-counts now r = elim (Bool-cases r.initialized) [
  | inl on ↦ (ground (arith, on), ground (arith, on))
  | inr off ↦ (ground (arith, off), ground (arith, off))
]

count_packet-counts :
    (now left : ℕ) (r : Receiver)
    → r.initialized ≡ true
    → counted_bytes (count_packet now left r) ≡ add_size (counted_bytes r) (left + overhead_bytes)
unfolding count_packet
count_packet-counts now left r on =
    elim (Bool-cases (ltb wait_ns (sub_size now r.last_recv_time))) [
      | inl due ↦ rw (due, on) (omega arith)
      | inr early ↦ rw (early, on) (omega arith)
    ]

-- Neither the write nor the decoder changes what was counted.
after_wait-HasCounted :
    (r : Receiver) (wait : Wait) → HasCounted (counted_bytes r) (after_wait r wait)
unfolding after_wait
after_wait-HasCounted r faults = _
after_wait-HasCounted r (finds_no_room stream) = _
after_wait-HasCounted r (writes n stream) = refl

after_decode-HasCounted :
    (level : List ℕ → ℕ → ℕ) (packet : Packet) (r : Receiver) (result : Outcome ℤ)
    → HasCounted (counted_bytes r) (after_decode level packet r result)
unfolding after_decode play_packet
after_decode-HasCounted level packet r aborts = _
after_decode-HasCounted level packet r (returns (negsuc n)) = refl
after_decode-HasCounted level packet r (returns (pos n)) =
    let decoded = record r { output_samples = splice r.output_samples 0 packet.samples } in
    after_wait-HasCounted decoded
      (wait_for_room level decoded.output_samples packet.turns decoded.stream)

decode_packet-HasCounted :
    (level : List ℕ → ℕ → ℕ) (opus : Opus) (decoder : Codec) (packet : Packet) (r : Receiver)
    → HasCounted (counted_bytes r) (decode_packet level opus decoder packet r)
unfolding decode_packet
decode_packet-HasCounted level opus decoder packet r = elim (Bool-cases packet.decrypts) [
  | inl on ↦ rw on (after_decode-HasCounted level packet r (decode opus decoder packet.payload))
  | inr off ↦ rw off refl
]

on_rtp-HasCounted :
    (level : List ℕ → ℕ → ℕ) (opus : Opus) (decoder : Codec) (packet : Packet) (r : Receiver)
    → HasCounted
        (add_size (counted_bytes r) (packet.left + overhead_bytes))
        (on_rtp level opus decoder packet r)
unfolding on_rtp
on_rtp-HasCounted level opus decoder packet r =
    let begun = begin packet.first_now r in
    let (on, same) = begin-counts packet.first_now r in
    let counted = count_packet packet.now packet.left begun in
    subst (λ n. HasCounted n (decode_packet level opus decoder packet counted))
      (count_packet-counts packet.now packet.left begun on
        ∙ ap (λ n. add_size n (packet.left + overhead_bytes)) same)
      (decode_packet-HasCounted level opus decoder packet counted)

-- One packet after another.
module _ (level : List ℕ → ℕ → ℕ) (opus : Opus) (decoder : Codec) (packet : Packet)
    (packets : List Packet) (r : Receiver)
    (rest : (after : Receiver)
      → HasCounted
          (add_size (counted_bytes after) (bytes_of packets))
          (receive_all level opus decoder packets after)) where
  goes_on-HasCounted :
      (after : Receiver)
      → counted_bytes after ≡ add_size (counted_bytes r) (packet.left + overhead_bytes)
      → HasCounted
          (add_size (counted_bytes r) (bytes_of (packet ∷ packets)))
          (receive_all level opus decoder packets after)
  goes_on-HasCounted after counted =
      subst (λ n. HasCounted n (receive_all level opus decoder packets after))
        (omega (arith, counted)) (rest after)

  receive_one-HasCounted :
      (first : Handled)
      → on_rtp level opus decoder packet r ≡ first
      → HasCounted (add_size (counted_bytes r) (packet.left + overhead_bytes)) first
      → HasCounted
          (add_size (counted_bytes r) (bytes_of (packet ∷ packets)))
          (receive_all level opus decoder (packet ∷ packets) r)
  unfolding receive_all
  receive_one-HasCounted (received after) e counted =
      rw (receive_all, e) (goes_on-HasCounted after counted)
  receive_one-HasCounted (dropped after) e counted =
      rw (receive_all, e) (goes_on-HasCounted after counted)
  receive_one-HasCounted (waiting after) e counted = rw (receive_all, e) _
  receive_one-HasCounted crashed e counted = rw (receive_all, e) _

-- Whatever becomes of the packets that arrive, played or dropped, and however the handler finds the
-- time, where it returns from all of them the total and the bytes not yet added to it make up,
-- modulo 2^64, what they made up before and all bytes received, each packet with 54 more. Before
-- the first packet of a call they count as 0.
pub receive_all-counts :
    (level : List ℕ → ℕ → ℕ) (opus : Opus) (decoder : Codec) (packets : List Packet) (r : Receiver)
    → HasCounted
        (add_size (counted_bytes r) (bytes_of packets))
        (receive_all level opus decoder packets r)
unfolding receive_all
receive_all-counts level opus decoder [] r = elim (Bool-cases r.initialized) [
  | inl on ↦ rw on (omega arith)
  | inr off ↦ rw off refl
]
receive_all-counts level opus decoder (packet ∷ packets) r =
    receive_one-HasCounted level opus decoder packet packets r
      (receive_all-counts level opus decoder packets) (on_rtp level opus decoder packet r) refl
      (on_rtp-HasCounted level opus decoder packet r)

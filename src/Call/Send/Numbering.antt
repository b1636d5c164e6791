-- ===== src/Call/Send/Numbering.antt =====
-- The packets that `rawr_Call_RtpSendThread` sends: how they are numbered, and that each byte of them
-- is counted once.
use rawr.Common.{ℕ, ◌+◌, ◌*◌, ◌^◌, ◌≤◌, ◌<◌, ◌≡◌, refl, ap, subst, ◌∙◌, arith, Bool, true}
use rawr.Common.{List, [], ◌∷◌, length, ltb, ◌==◌, Bool-cases, Option-cases, ◌⊎◌, inl, inr}
use rawr.Common.{
  add_size, sub_size, u32, u16, ℤ, pos, negsuc, is_negative, Outcome, returns, aborts,
}
use rawr.Codec.{Opus, Codec, encode}
use rawr.Call.Send.{Header, Sent, Sender, Turn, TurnResult, sent, broken, sleeping, aborted}
use rawr.Call.Send.{overhead_bytes, wait_ns, tick, send_bytes, send_samples}
use rawr.Call.Send.{wait_and_send, wait_for_samples, advanced, next_header, turn_once, send_packets}
use rawr.Call.Send.{LoopEnd, exiting, error, asleep, process_ends, start_sending}

-- Before the packet of number `n`.
abbrev IsAt : ℕ → Sender → Type 0
IsAt n s = (s.rtp_time ≡ n * 960) × (s.rtp_seq ≡ u32 (1024 + n))

-- What was counted, whether or not it is in the total yet.
abbrev pub counted_bytes : Sender → ℕ
counted_bytes s = add_size s.send_total s.bytes_send

-- The header of packet `n`.
abbrev pub IsNumbered : ℕ → Header → Type 0
IsNumbered n header =
    (header.seq ≡ u16 (1024 + n))
    × (header.timestamp ≡ u32 ((n + 1) * 960))
    × (header.marker ≡ (n == 0))

-- What a turn at packet `n` comes to.
abbrev IsTurn : ℕ → Sender → TurnResult → Type 0
IsTurn n s (sent packet after) =
    IsNumbered n packet.header
    × IsAt (n + 1) after
    × (counted_bytes after ≡ add_size (counted_bytes s) (packet.bytes + overhead_bytes))
IsTurn n s result = true ≡ true

tick-counts :
    (now recv_count : ℕ) (s : Sender) → counted_bytes (tick now recv_count s) ≡ counted_bytes s
unfolding tick
tick-counts now recv_count s = elim (Bool-cases (ltb wait_ns (sub_size now s.tstamp_last))) [
  | inl due ↦ rw due (omega arith)
  | inr early ↦ rw early refl
]

tick-IsAt : (now recv_count n : ℕ) (s : Sender) → IsAt n s → IsAt n (tick now recv_count s)
unfolding tick
tick-IsAt now recv_count n s at = elim (Bool-cases (ltb wait_ns (sub_size now s.tstamp_last))) [
  | inl due ↦ rw due at
  | inr early ↦ rw early at
]

module _ (n : ℕ) (s : Sender) (at : IsAt n s) (few : n < 2 ^ 50) (rtp_receiver : Bool) where
  advanced-IsAt : IsAt (n + 1) (advanced s)
  advanced-IsAt = (omega (arith, at.0, few), omega (arith, at.1))

  next_header-IsNumbered : IsNumbered n (next_header rtp_receiver s)
  next_header-IsNumbered =
      let time : add_size s.rtp_time 960 ≡ (n + 1) * 960 = advanced-IsAt.0 in
      (omega (arith, at.1), ap u32 time, ap (λ t. t == 960) time ∙ ground arith)

  send_bytes-IsTurn :
      (turn : Turn) (bytes : ℤ)
      → IsTurn n s (send_bytes turn (next_header rtp_receiver s) (advanced s) bytes)
  unfolding send_bytes
  send_bytes-IsTurn turn (negsuc k) = refl
  send_bytes-IsTurn turn (pos k) =
      let counted : Sender = record (advanced s) {
        bytes_send = add_size (add_size s.bytes_send k) overhead_bytes;
      } in
      elim (Bool-cases turn.encrypts) [
        | inr failed ↦ rw failed refl
        | inl encrypted ↦ elim (Bool-cases turn.sends) [
          | inr failed ↦ rw (encrypted, failed) refl
          | inl delivered ↦
              rw (encrypted, delivered)
                (
                  next_header-IsNumbered,
                  tick-IsAt turn.now turn.recv_count (n + 1) counted advanced-IsAt,
                  tick-counts turn.now turn.recv_count counted ∙ omega arith,
                )
        ]
      ]

  wait_and_send-IsTurn :
      (opus : Opus) (encoder : Codec) (turn : Turn)
      → IsTurn n s (wait_and_send opus encoder turn (next_header rtp_receiver s) (advanced s))
  unfolding wait_and_send send_samples
  wait_and_send-IsTurn opus encoder turn =
      elim (Option-cases (wait_for_samples turn.looks turn.reads 0)) [
        | inl waits ↦ rw (wait_and_send, waits) refl
        | inr (count, found) ↦ elim (Bool-cases (is_negative count)) [
          | inl negative ↦ rw (wait_and_send, found, negative) refl
          | inr read ↦ elim (Outcome-cases (encode opus encoder turn.samples)) [
            | inl ends ↦ rw (wait_and_send, found, read, send_samples, ends) refl
            | inr (bytes, encoded) ↦
                rw (wait_and_send, found, read, send_samples, encoded)
                  (send_bytes-IsTurn turn bytes)
          ]
        ]
      ]
    where
      Outcome-cases : (o : Outcome ℤ) → (o ≡ aborts) ⊎ ((n : ℤ) × (o ≡ returns n))
      Outcome-cases aborts = inl refl
      Outcome-cases (returns n) = inr (n, refl)

  turn_once-IsTurn :
      (opus : Opus) (encoder : Codec) (turn : Turn)
      → IsTurn n s (turn_once opus encoder rtp_receiver s turn)
  unfolding turn_once
  turn_once-IsTurn opus encoder turn = elim (Bool-cases turn.encodes_header) [
    | inl made ↦ rw made (wait_and_send-IsTurn opus encoder turn)
    | inr failed ↦ rw failed refl
  ]

-- Packets numbered from `n` on.
abbrev pub AreNumbered : ℕ → List Sent → Type 0
AreNumbered n [] = true ≡ true
AreNumbered n (packet ∷ packets) = IsNumbered n packet.header × AreNumbered (n + 1) packets

-- The bytes of packets, with the overhead of each.
abbrev pub total_bytes : List Sent → ℕ
total_bytes [] = 0
total_bytes (packet ∷ packets) = add_size (packet.bytes + overhead_bytes) (total_bytes packets)

-- What the loop has counted where it is left because the call is ending.
abbrev pub CountsAll : ℕ → List Sent × LoopEnd → Type 0
CountsAll before (packets, exiting after) =
    counted_bytes after ≡ add_size before (total_bytes packets)
CountsAll before (packets, end) = true ≡ true

-- A turn's result, taken apart.
TurnResult-cases :
    (r : TurnResult)
    → ((packet : Sent) × (after : Sender) × (r ≡ sent packet after))
      ⊎ (((after : Sender) × (r ≡ broken after)) ⊎ ((r ≡ sleeping) ⊎ (r ≡ aborted)))
TurnResult-cases (sent packet after) = inl (packet, after, refl)
TurnResult-cases (broken after) = inr (inl (after, refl))
TurnResult-cases sleeping = inr (inr (inl refl))
TurnResult-cases aborted = inr (inr (inr refl))

CountsAll-cons :
    (before middle : ℕ) (packet : Sent) (rest : List Sent × LoopEnd)
    → middle ≡ add_size before (packet.bytes + overhead_bytes)
    → CountsAll middle rest
    → CountsAll before (packet ∷ rest.0, rest.1)
CountsAll-cons before middle packet (packets, exiting after) e counts = omega (arith, e, counts)
CountsAll-cons before middle packet (packets, error after) e counts = refl
CountsAll-cons before middle packet (packets, asleep) e counts = refl
CountsAll-cons before middle packet (packets, process_ends) e counts = refl

module _ (opus : Opus) (encoder : Codec) (rtp_receiver : Bool) where
  send_packets-from :
      (turns : List Turn) (n : ℕ) (s : Sender)
      → IsAt n s
      → n + length turns ≤ 2 ^ 50
      → AreNumbered n (send_packets opus encoder rtp_receiver s turns).0
        × CountsAll (counted_bytes s) (send_packets opus encoder rtp_receiver s turns)
  unfolding send_packets
  send_packets-from [] n s at few = (refl, omega arith)
  send_packets-from (turn ∷ turns) n s at few =
      let is_turn = turn_once-IsTurn n s at (omega (arith, few)) rtp_receiver opus encoder turn in
      elim (TurnResult-cases (turn_once opus encoder rtp_receiver s turn)) [
        | inl (packet, after, e) ↦
            let facts : IsTurn n s (sent packet after) = subst (IsTurn n s) e is_turn in
            let (numbered, at_next, counts) = facts in
            let rest = send_packets-from turns (n + 1) after at_next (omega (arith, few)) in
            rw (send_packets, e)
              ((numbered, rest.0), CountsAll-cons (counted_bytes s) _ packet _ counts rest.1)
        | inr (inl (after, e)) ↦ rw (send_packets, e) (refl, refl)
        | inr (inr (inl e)) ↦ rw (send_packets, e) (refl, refl)
        | inr (inr (inr e)) ↦ rw (send_packets, e) (refl, refl)
      ]

  -- The packets that the send loop of a newly started call sends in up to 2^50 turns, however often
  -- the stream is empty and wherever the loop is left, are numbered 1024, 1025 and on modulo 2^16,
  -- have the timestamps 960, 1920 and on modulo 2^32, and only the first has the marker. Where the
  -- loop is left because the call is ending, the total and the bytes not yet added to it make up,
  -- modulo 2^64, all bytes sent, each packet with 54 more.
  pub send_packets-numbers :
      (turns : List Turn) (now recv_count : ℕ)
      → length turns ≤ 2 ^ 50
      → AreNumbered 0
          (send_packets opus encoder rtp_receiver (start_sending 0 now recv_count) turns).0
        × CountsAll 0
            (send_packets opus encoder rtp_receiver (start_sending 0 now recv_count) turns)
  unfolding start_sending
  send_packets-numbers turns now recv_count few =
      send_packets-from turns 0 (start_sending 0 now recv_count) (refl, refl) (omega (arith, few))

-- ===== src/TestClient/Loop.antt =====
-- The receive loop of the test client comes to its end, and a client that is closed twice.
use rawr.Common.{ℕ, zero, suc, ◌/◌, ◌≤◌, ◌<◌, ◌≡◌, refl, ◌∙◌, arith, Bool, true, false}
use rawr.Common.{List, [], ◌∷◌, some, returns, aborts, length, drop}
use rawr.Common.{Bool-cases, inl, inr, ◌==◌, if◌then◌else◌, leb, sym}
use rawr.Common.Maps.{contains}
use rawr.Signaller.{Text}
use rawr.Signaller.Handlers.{Mbuf, peer_candidates_message}
use rawr.TestClient.{exchanging, completed, Client, counts}
use rawr.TestClient.{close_client, end_turn, offer, timer_in_state, timer_handler}
use rawr.TestClient.{on_message, skip_candidates, recv_client}

-- What libre documents of its reads: a byte that is there is taken; without one, 0 is read; a number
-- is taken where all its bytes are there, and a read never makes a buffer longer; a text without 0 is
-- read whole.
pub record IsMbuf (lib : Mbuf) : Type 0 where
  pub read_u8-cons : (b : ℕ) (bytes : List ℕ) → lib.read_u8 (b ∷ bytes) ≡ (b, bytes)
  pub read_u8-nil : lib.read_u8 [] ≡ (0, [])
  pub length-skip : (n : ℕ) (bytes : List ℕ) → length (lib.skip n bytes) ≤ length bytes
  pub skip-fits : (n : ℕ) (bytes : List ℕ) → n ≤ length bytes → lib.skip n bytes ≡ drop n bytes
  pub read_str-text :
      (text : Text) → contains 0 text ≡ false → lib.read_str text (length text) ≡ some text

-- A client is completed only when it has sent and received candidates.
pub record IsSound (client : Client) : Type 0 where
  pub received : client.state ≡ completed → client.candidates_rcvd ≡ true
  pub sent : client.state ≡ completed → client.candidates_sent ≡ true

pub on_message-IsSound :
    (msg_id : ℕ) (client : Client) → IsSound client → IsSound (on_message msg_id client)
unfolding on_message
on_message-IsSound msg_id client sound = elim (Bool-cases (msg_id == 2)) [
  | inl ready ↦ rw ready (record { received = λ e. absurd (cc); sent = λ e. absurd (cc) })
  | inr not_ready ↦ elim (Bool-cases (msg_id == 3)) [
    | inl candidates ↦ elim (Bool-cases client.candidates_sent) [
      | inl sent ↦
          rw (not_ready, candidates, sent) (record { received = λ e. refl; sent = λ e. refl })
      | inr unsent ↦
          rw (not_ready, candidates, unsent)
            (record { received = λ e. refl; sent = λ e. sym unsent ∙ sound.sent e })
    ]
    | inr other ↦ elim (Bool-cases (msg_id == 4)) [
      | inl last ↦
          rw (not_ready, other, last) (record { received = sound.received; sent = sound.sent })
      | inr unknown ↦ rw (not_ready, other, unknown) sound
    ]
  ]
]

module _ (lib : Mbuf) (reads : IsMbuf lib) where
  length-read_u8 : (bytes : List ℕ) → length ((lib.read_u8 bytes).1) ≤ length bytes
  length-read_u8 [] = rw reads.read_u8-nil (omega arith)
  length-read_u8 (b ∷ bytes) = rw (reads.read_u8-cons b bytes) (omega arith)

  length-skip_candidates :
      (n : ℕ) (bytes : List ℕ) → length (skip_candidates lib n bytes) ≤ length bytes
  unfolding skip_candidates
  length-skip_candidates zero bytes = omega arith
  length-skip_candidates (suc n) bytes = omega (
    arith,
    length-skip_candidates n (lib.skip 2 (lib.skip 4 bytes)),
    reads.length-skip 2 (lib.skip 4 bytes),
    reads.length-skip 4 bytes,
  )

  -- Where the reads of libre do what it documents, the receive loop of a client ends with any message:
  -- one round more than the message has bytes is enough. A client that is completed only when it has
  -- sent and received candidates is so again.
  pub recv_client-ends :
      (rounds : ℕ) (bytes : List ℕ) (client : Client)
      → length bytes < rounds
      → IsSound client
      → (after : Client) × (recv_client lib rounds bytes client ≡ some after) × IsSound after
  unfolding recv_client
  recv_client-ends zero bytes client enough sound = absurd (omega arith)
  recv_client-ends (suc rounds) [] client enough sound = (client, refl, sound)
  recv_client-ends (suc rounds) (b ∷ bytes) client enough sound =
      let msg_id = (lib.read_u8 (b ∷ bytes)).0 in
      let after_id = (lib.read_u8 (b ∷ bytes)).1 in
      let after_len = (lib.read_u8 after_id).1 in
      let taken : length after_id ≤ length bytes = rw (reads.read_u8-cons b bytes) (omega arith) in
      let left : length after_len ≤ length bytes = omega (arith, length-read_u8 after_id, taken) in
      let rest : List ℕ =
        if msg_id == peer_candidates_message
        then skip_candidates lib ((lib.read_u8 after_id).0 / 6) after_len
        else after_len in
      recv_client-ends rounds rest (on_message msg_id client)
        (elim (Bool-cases (msg_id == peer_candidates_message)) [
          | inl is_candidates ↦ rw is_candidates (
              omega (
                arith,
                length-skip_candidates ((lib.read_u8 after_id).0 / 6) after_len,
                left,
                enough,
              ))
          | inr other ↦ rw other (omega (arith, left, enough))
        ])
        (on_message-IsSound msg_id client sound)

-- A client that exchanges candidates, is one of the two that offer some, and has received but not
-- sent candidates, finds at its timer that it cannot send. It is closed and counted, and yet completed
-- with its timer running, and when the timer is up next it lets its connection go a second time: the
-- call faults.
pub timer_handler-twice :
    (addresses : ℕ → List ℕ) (sent : Bool) (client : Client)
    → client.state ≡ exchanging
    → client.id ≤ 1
    → client.candidates_rcvd ≡ true
    → client.candidates_sent ≡ false
    → client.released ≡ false
    → (after : Client) × (timer_handler addresses false client ≡ returns (after, counts ∷ []))
      × (after.timer ≡ true)
      × (timer_handler addresses sent after ≡ aborts)
unfolding timer_handler timer_in_state offer close_client end_turn
timer_handler-twice addresses sent client state offers received unsent held =
    let low : leb client.id 1 ≡ true = ground (arith, offers) in
    (
      record client {
        released = true;
        timer = true;
        state = completed;
        candidates_rcvd = true;
        candidates_sent = true;
      },
      rw (state, unsent, low, held, received) refl,
      refl,
      refl,
    )

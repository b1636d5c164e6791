-- ===== src/Call/Session.antt =====
-- The handlers that libre calls: how an incoming call is answered, how often the send thread is
-- launched, and which key packets are received with.
use rawr.Common.{ℕ, ◌+◌, ◌≡◌, refl, ap, arith, Bool, true, false, ◌&&◌, List, [], ◌∷◌}
use rawr.Common.{Option, none, some, inl, inr, Bool-cases}
use rawr.Call.State.{Call, live, start, reset}
use rawr.Call.State.{set_state}
use rawr.Call.Handlers.{
  Incoming, on_connect, answer_call, accept_call, update_media, is_null, on_establish,
}
use rawr.Call.Handlers.{on_answer, on_offer, terminate, Event, handle, handle_all, answered}
use rawr.Call.Handlers.{offered, established, closed, called, Media}

-- What an incoming call comes to: the reply sent, and the call after it.
pub data Answered (call : Call) : Option ℕ × Call → Type 0 where
  busy : is_null call.sip_sess ≡ false → Answered call (some 486, call)
  refused :
      (after : Call)
      → is_null call.sip_sess ≡ true
      → after.sip_sess ≡ call.sip_sess
      → after.rtp_threads ≡ call.rtp_threads
      → Answered call (some 500, after)
  accepted :
      (after : Call)
      → is_null call.sip_sess ≡ true
      → after.sip_sess ≡ live
      → after.rtp_threads ≡ call.rtp_threads + 1
      → Answered call (none, after)

accept_call-Answered :
    (incoming : Incoming) (call before : Call)
    → is_null call.sip_sess ≡ true
    → before.sip_sess ≡ call.sip_sess
    → before.rtp_threads ≡ call.rtp_threads
    → Answered call (accept_call incoming before)
unfolding accept_call
accept_call-Answered incoming call before idle same threads =
    elim (Bool-cases (incoming.encodes && incoming.accepts)) [
      | inl ok ↦ rw ok (accepted _ idle refl (ap (λ n. n + 1) threads))
      | inr failed ↦ rw failed (refused _ idle same threads)
    ]

answer_call-Answered :
    (incoming : Incoming) (call : Call)
    → is_null call.sip_sess ≡ true
    → Answered call (answer_call incoming call)
unfolding answer_call
answer_call-Answered incoming call idle = elim (Bool-cases incoming.got_offer) [
  | inr no_offer ↦ rw no_offer (accept_call-Answered incoming call call idle refl refl)
  | inl offer ↦ elim (Bool-cases incoming.decodes) [
    | inr garbled ↦ rw (offer, garbled) (refused _ idle refl refl)
    | inl decoded ↦
        rw (offer, decoded)
          (accept_call-Answered incoming call
            (update_media incoming.described (record call { rtp_receiver = true })) idle
            (unfold update_media in refl) (unfold update_media in refl))
  ]
]

-- An incoming call is refused with 486, and changes nothing, exactly while there is a session. Without
-- one it is refused with 500, and makes no session and launches no thread; or it is accepted, makes the
-- session and launches the send thread once.
pub on_connect-Answered :
    (incoming : Incoming) (call : Call) → Answered call (on_connect incoming call)
unfolding on_connect
on_connect-Answered incoming call = elim (Bool-cases (is_null call.sip_sess)) [
  | inl idle ↦ rw idle (answer_call-Answered incoming call idle)
  | inr taken ↦ rw taken (busy taken)
]

-- An incoming call that brings no offer and is accepted, and whose session is then established, has
-- launched the send thread twice.
on_establish-on_connect :
    (incoming : Incoming) (call : Call)
    → is_null call.sip_sess ≡ true
    → incoming.got_offer ≡ false
    → incoming.encodes ≡ true
    → incoming.accepts ≡ true
    → (on_establish (on_connect incoming call).1).rtp_threads ≡ call.rtp_threads + 1 + 1
unfolding on_connect answer_call accept_call on_establish
on_establish-on_connect incoming call idle no_offer encodes accepts =
    rw (idle, no_offer, encodes, accepts) refl

update_media-keeps :
    {key : List ℕ} (described : Media) (call : Call)
    → call.srtp_receive ≡ some key
    → (update_media described call).srtp_receive ≡ some key
unfolding update_media is_null
update_media-keeps described call has_key = ground arith

accept_call-keeps :
    {key : List ℕ} (incoming : Incoming) (call : Call)
    → call.srtp_receive ≡ some key
    → (accept_call incoming call).1.srtp_receive ≡ some key
unfolding accept_call
accept_call-keeps incoming call k = elim (Bool-cases (incoming.encodes && incoming.accepts)) [
  | inl ok ↦ rw ok k
  | inr failed ↦ rw failed k
]

answer_call-keeps :
    {key : List ℕ} (incoming : Incoming) (call : Call)
    → call.srtp_receive ≡ some key
    → (answer_call incoming call).1.srtp_receive ≡ some key
unfolding answer_call
answer_call-keeps incoming call k = elim (Bool-cases incoming.got_offer) [
  | inr no_offer ↦ rw no_offer (accept_call-keeps incoming call k)
  | inl offer ↦ elim (Bool-cases incoming.decodes) [
    | inr garbled ↦ rw (offer, garbled) k
    | inl decoded ↦
        rw (offer, decoded)
          (accept_call-keeps incoming
            (update_media incoming.described (record call { rtp_receiver = true }))
            (update_media-keeps incoming.described (record call { rtp_receiver = true }) k))
  ]
]

on_connect-keeps :
    {key : List ℕ} (incoming : Incoming) (call : Call)
    → call.srtp_receive ≡ some key
    → (on_connect incoming call).1.srtp_receive ≡ some key
unfolding on_connect
on_connect-keeps incoming call k = elim (Bool-cases (is_null call.sip_sess)) [
  | inl idle ↦ rw idle (answer_call-keeps incoming call k)
  | inr taken ↦ rw taken k
]

handle-keeps :
    {key : List ℕ} (event : Event) (call : Call)
    → call.srtp_receive ≡ some key
    → (handle event call).srtp_receive ≡ some key
unfolding handle on_answer on_offer on_establish terminate
handle-keeps (answered true described) call k =
    update_media-keeps described (record call { rtp_receiver = false }) k
handle-keeps (answered false described) call k = k
handle-keeps (offered true true described) call k =
    update_media-keeps described (record call { rtp_receiver = false }) k
handle-keeps (offered true false described) call k = k
handle-keeps (offered false decodes described) call k = k
handle-keeps established call k = k
handle-keeps closed call k = k
handle-keeps (called incoming) call k = on_connect-keeps incoming call k

handle_all-keeps :
    {key : List ℕ} (events : List Event) (call : Call)
    → call.srtp_receive ≡ some key
    → (handle_all events call).srtp_receive ≡ some key
unfolding handle_all
handle_all-keeps [] call k = k
handle_all-keeps (event ∷ events) call k =
    handle_all-keeps events (handle event call) (handle-keeps event call k)

-- The key that a call receives with, once there, stays that key: neither a new start of the same call
-- nor any later offers, answers and incoming calls replace it, whatever keys they bring.
pub receive_key-stays :
    {key : List ℕ} (launches : Bool) (events : List Event) (call : Call)
    → call.srtp_receive ≡ some key
    → (handle_all events (start launches call).1).srtp_receive ≡ some key
unfolding start reset set_state
receive_key-stays true events call k = handle_all-keeps events _ k
receive_key-stays false events call k = handle_all-keeps events _ k

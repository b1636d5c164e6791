-- ===== src/Call/Handlers.antt =====
-- The handlers of src/Call.c that libre calls while its main loop runs.
use rawr.Common.{ℕ, ◌+◌, Bool, true, false, not, ◌&&◌, List, [], ◌∷◌, Option, none, some}
use rawr.Common.{if◌then◌else◌}
use rawr.Call.State.{Pointer, Call, null, live, dangling}

-- What an SDP answer or offer says: whether it has the opus format, and the key of the first crypto
-- line that gives a receiving context.
pub record Media : Type 0 where
  pub format : Bool
  pub crypto : Option (List ℕ)

unfoldable pub is_null : Pointer → Bool
is_null null = true
is_null live = false
is_null dangling = false

abbrev pub has_no_key : Option (List ℕ) → Bool
has_no_key none = true
has_no_key (some key) = false

-- `sdp_media_rattr_apply` with `rawr_Call_CryptoAttribHandler`: a line that is taken sets the context.
abbrev pub apply_crypto : Option (List ℕ) → Option (List ℕ) → Option (List ℕ)
apply_crypto none held = held
apply_crypto (some key) held = some key

-- `rawr_Call_UpdateMedia`
unfoldable pub update_media : Media → Call → Call
update_media described call = record call {
  srtp_receive =
      if described.format && has_no_key call.srtp_receive
      then apply_crypto described.crypto call.srtp_receive
      else call.srtp_receive;
}

-- `rawr_Call_OnAnswer`, by whether the answer could be decoded.
unfoldable pub on_answer : Bool → Media → Call → Call
unfolding update_media
on_answer true described call = update_media described (record call { rtp_receiver = false })
on_answer false described call = call

-- `rawr_Call_OnOffer`, by whether there is an offer and whether it could be decoded.
unfoldable pub on_offer : Bool → Bool → Media → Call → Call
unfolding update_media
on_offer true true described call = update_media described (record call { rtp_receiver = false })
on_offer got_offer decodes described call = call

-- `rawr_Call_OnEstablish`
unfoldable pub on_establish : Call → Call
on_establish call = record call { rtp_threads = call.rtp_threads + 1 }

-- `rawr_Call_Terminate`, which `rawr_Call_OnClose` and `rawr_Call_Stop` call. `mem_deref` returns NULL.
unfoldable pub terminate : Call → Call
terminate call = record call { sip_sess = null; exiting = true }

-- An incoming call: whether it brings an offer, and whether that is decoded, the answer encoded, and
-- the session accepted.
pub record Incoming : Type 0 where
  pub got_offer : Bool
  pub decodes : Bool
  pub described : Media
  pub encodes : Bool
  pub accepts : Bool

-- From the encoding on.
unfoldable pub accept_call : Incoming → Call → Option ℕ × Call
accept_call incoming call =
    if not (incoming.encodes && incoming.accepts)
    then (some 500, call)
    else (none, record call { sip_sess = live; rtp_threads = call.rtp_threads + 1 })

unfoldable pub answer_call : Incoming → Call → Option ℕ × Call
unfolding accept_call update_media
answer_call incoming call =
    if not incoming.got_offer
    then accept_call incoming call
    else if not incoming.decodes
    then (some 500, call)
    else accept_call incoming
        (update_media incoming.described (record call { rtp_receiver = true }))

-- `rawr_Call_OnConnect`; the number is the reply that it sends itself.
unfoldable pub on_connect : Incoming → Call → Option ℕ × Call
unfolding answer_call is_null
on_connect incoming call =
    if is_null call.sip_sess then answer_call incoming call else (some 486, call)

-- What libre can call while the main loop runs.
pub data Event : Type 0 where
  answered : Bool → Media → Event
  offered : Bool → Bool → Media → Event
  established closed : Event
  called : Incoming → Event

unfoldable pub handle : Event → Call → Call
unfolding on_answer on_offer on_establish terminate on_connect
handle (answered decodes described) call = on_answer decodes described call
handle (offered got_offer decodes described) call = on_offer got_offer decodes described call
handle established call = on_establish call
handle closed call = terminate call
handle (called incoming) call = (on_connect incoming call).1

unfoldable pub handle_all : List Event → Call → Call
unfolding handle
handle_all [] call = call
handle_all (event ∷ events) call = handle_all events (handle event call)

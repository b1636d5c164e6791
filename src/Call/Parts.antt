-- ===== src/Call/Parts.antt =====
-- The parts of `rawr_Call_SipThread` up to its main loop, and the handlers that the loop calls: each
-- part goes on exactly when its steps succeed, and all keep the call open.
use rawr.Common.{◌≡◌, refl, Bool, true, false, ◌&&◌, List, [], ◌∷◌}
use rawr.Common.{if◌then◌else◌, inl, inr, Bool-cases}
use rawr.Call.State.{Call, started, Pointer, live}
use rawr.Call.State.{dangling}
use rawr.Call.Steps.{Progress, goes, fails, waits, crashes, ◌>>=◌, guard, Answers}
use rawr.Call.Steps.{open_codecs, open_sip, open_media, invite}
use rawr.Call.Steps.{encoder_setup}
use rawr.Call.Steps.{
  decoder_setup, stream_start, name_servers, dns_alloc, sip_alloc, local_address, tls_alloc,
}
use rawr.Call.Steps.{
  transport, session_listen, udp_listen, sdp_alloc, sdp_media, srtp_alloc, sdp_format,
}
use rawr.Call.Steps.{sdp_encode, sip_connect}
use rawr.Call.Handlers.{Event, handle, handle_all, on_connect, answered, offered, established}
use rawr.Call.Handlers.{closed, called, on_answer, on_offer, update_media, is_null, on_establish}
use rawr.Call.Handlers.{terminate, answer_call, accept_call, Incoming}

abbrev pub can_release : Pointer → Bool
can_release dangling = false
can_release pointer = true

abbrev pub is_live : Pointer → Bool
is_live live = true
is_live pointer = false

-- The call while the thread works: the audio stream is open, and each of the references that
-- `cleanup:` lets go is NULL or held.
abbrev pub IsOpen : Call → Type 0
IsOpen call =
    (call.state ≡ started)
    × (call.stream ≡ live)
    × (can_release call.dns_client ≡ true)
    × (can_release call.sip ≡ true)
    × (can_release call.sess_sock ≡ true)
    × (can_release call.rtp_sock ≡ true)
    × (can_release call.sdp_sess ≡ true)

-- A part of the thread that goes on exactly when a condition holds, with the call open either way.
unfoldable pub Runs : Bool → Progress → Type 0
Runs condition (goes call) = (condition ≡ true) × IsOpen call
Runs condition (fails call) = (condition ≡ false) × IsOpen call
Runs condition (waits call) = true ≡ false
Runs condition crashes = true ≡ false

pub guard-Runs :
    (condition : Bool) (before after : Call)
    → IsOpen before
    → IsOpen after
    → Runs condition (guard condition before after)
unfolding Runs
guard-Runs true before after o o' = (refl, o')
guard-Runs false before after o o' = (refl, o)

pub bind-Runs :
    (first second : Bool) (p : Progress) (f : Call → Progress)
    → Runs first p
    → ((call : Call) → IsOpen call → Runs second (f call))
    → Runs (first && second) (p >>= f)
unfolding Runs
bind-Runs first second (goes call) f runs next = rw runs.0 (next call runs.1)
bind-Runs first second (fails call) f runs next = rw runs.0 (refl, runs.1)
bind-Runs first second (waits call) f runs next = runs
bind-Runs first second crashes f runs next = runs

-- The conditions of the parts.
abbrev pub codecs_ok : Answers → Bool
codecs_ok ok = ok encoder_setup && (ok decoder_setup && ok stream_start)

abbrev pub sip_ok : Answers → Bool
sip_ok ok =
    ok name_servers
    && (ok dns_alloc
        && (ok sip_alloc
            && (ok local_address && (ok tls_alloc && (ok transport && ok session_listen)))))

abbrev pub media_ok : Answers → Bool
media_ok ok = ok udp_listen && (ok sdp_alloc && (ok sdp_media && (ok sdp_format && ok sdp_encode)))

pub open_codecs-Runs :
    (ok : Answers) (call : Call) → IsOpen call → Runs (codecs_ok ok) (open_codecs ok call)
unfolding open_codecs
open_codecs-Runs ok call o =
    bind-Runs (ok encoder_setup) _ _ _ (guard-Runs (ok encoder_setup) _ _ o o) (λ c1 o1.
      bind-Runs (ok decoder_setup) _ _ _ (guard-Runs (ok decoder_setup) _ _ o1 o1)
        (λ c2 o2. guard-Runs (ok stream_start) _ _ o2 o2))

pub open_sip-Runs : (ok : Answers) (call : Call) → IsOpen call → Runs (sip_ok ok) (open_sip ok call)
unfolding open_sip
open_sip-Runs ok call o =
    bind-Runs (ok name_servers) _ _ _ (guard-Runs (ok name_servers) _ _ o o) (λ c1 o1.
      bind-Runs (ok dns_alloc) _ _ _
        (guard-Runs (ok dns_alloc) _ _ o1 (o1.0, o1.1, refl, o1.3, o1.4, o1.5, o1.6))
        (λ c2 o2.
          bind-Runs (ok sip_alloc) _ _ _
            (guard-Runs (ok sip_alloc) _ _ o2 (o2.0, o2.1, o2.2, refl, o2.4, o2.5, o2.6))
            (λ c3 o3.
              bind-Runs (ok local_address) _ _ _ (guard-Runs (ok local_address) _ _ o3 o3) (λ c4 o4.
                bind-Runs (ok tls_alloc) _ _ _ (guard-Runs (ok tls_alloc) _ _ o4 o4) (λ c5 o5.
                  bind-Runs (ok transport) _ _ _ (guard-Runs (ok transport) _ _ o5 o5) (λ c6 o6.
                    guard-Runs (ok session_listen) _ _ o6
                      (o6.0, o6.1, o6.2, o6.3, refl, o6.5, o6.6)))))))

pub open_media-Runs :
    (ok : Answers) (call : Call) → IsOpen call → Runs (media_ok ok) (open_media ok call)
unfolding open_media
open_media-Runs ok call o =
    bind-Runs (ok udp_listen) _ _ _
      (guard-Runs (ok udp_listen) _ _ o (o.0, o.1, o.2, o.3, o.4, refl, o.6))
      (λ c1 o1.
        bind-Runs (ok sdp_alloc) _ _ _
          (guard-Runs (ok sdp_alloc) _ _ o1 (o1.0, o1.1, o1.2, o1.3, o1.4, o1.5, refl))
          (λ c2 o2. bind-Runs (ok sdp_media) _ _ _ (guard-Runs (ok sdp_media) _ _ o2 o2) (λ c3 o3.
            let keyed : Call = if ok srtp_alloc then record c3 { srtp_transmit = live } else c3 in
            let o4 : IsOpen keyed = keyed-IsOpen (ok srtp_alloc) c3 o3 in
            bind-Runs (ok sdp_format) _ _ _ (guard-Runs (ok sdp_format) keyed keyed o4 o4)
              (λ c5 o5. guard-Runs (ok sdp_encode) _ _ o5 o5))))
  where
    keyed-IsOpen :
        (has_key : Bool) (c : Call)
        → IsOpen c
        → IsOpen (if has_key then record c { srtp_transmit = live } else c)
    keyed-IsOpen true c o = o
    keyed-IsOpen false c o = o

pub invite-Runs :
    (ok : Answers) (call : Call) → IsOpen call → Runs (ok sip_connect) (invite ok call)
unfolding invite
invite-Runs ok call o = guard-Runs (ok sip_connect) _ _ o o

-- No handler touches what `IsOpen` speaks of.
accept_call-IsOpen :
    (incoming : Incoming) (call : Call) → IsOpen call → IsOpen (accept_call incoming call).1
unfolding accept_call
accept_call-IsOpen incoming call o = elim (Bool-cases (incoming.encodes && incoming.accepts)) [
  | inl accepted ↦ rw accepted o
  | inr refused ↦ rw refused o
]

answer_call-IsOpen :
    (incoming : Incoming) (call : Call) → IsOpen call → IsOpen (answer_call incoming call).1
unfolding answer_call
answer_call-IsOpen incoming call o = elim (Bool-cases incoming.got_offer) [
  | inr no_offer ↦ rw no_offer (accept_call-IsOpen incoming call o)
  | inl offer ↦ elim (Bool-cases incoming.decodes) [
    | inr garbled ↦ rw (offer, garbled) o
    | inl decoded ↦
        rw (offer, decoded)
          (accept_call-IsOpen incoming
            (update_media incoming.described (record call { rtp_receiver = true }))
            (unfold update_media in o))
  ]
]

on_connect-IsOpen :
    (incoming : Incoming) (call : Call) → IsOpen call → IsOpen (on_connect incoming call).1
unfolding on_connect
on_connect-IsOpen incoming call o = elim (Bool-cases (is_null call.sip_sess)) [
  | inl idle ↦ rw idle (answer_call-IsOpen incoming call o)
  | inr busy ↦ rw busy o
]

handle-IsOpen : (event : Event) (call : Call) → IsOpen call → IsOpen (handle event call)
unfolding handle on_answer on_offer update_media on_establish terminate
handle-IsOpen (answered true described) call o = o
handle-IsOpen (answered false described) call o = o
handle-IsOpen (offered true true described) call o = o
handle-IsOpen (offered true false described) call o = o
handle-IsOpen (offered false decodes described) call o = o
handle-IsOpen established call o = o
handle-IsOpen closed call o = o
handle-IsOpen (called incoming) call o = on_connect-IsOpen incoming call o

pub handle_all-IsOpen :
    (events : List Event) (call : Call) → IsOpen call → IsOpen (handle_all events call)
unfolding handle_all
handle_all-IsOpen [] call o = o
handle_all-IsOpen (event ∷ events) call o =
    handle_all-IsOpen events (handle event call) (handle-IsOpen event call o)

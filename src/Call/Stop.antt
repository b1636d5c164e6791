-- ===== src/Call/Stop.antt =====
-- `rawr_Call_Stop` of src/Call.c, and what it does to a call whose SIP thread has ended.
use rawr.Common.{Bool, if◌then◌else◌, ap, ◌≡◌, refl, ◌∙◌, true, false, ◌&&◌, List, [], ◌∷◌}
use rawr.Common.{some, success, Outcome, returns, aborts, inl, inr, Bool-cases}
use rawr.Call.State.{
  Call, Pointer, null, live, dangling, started, stopping, block_on_call, keeps_waiting,
}
use rawr.Call.State.{mem_deref, set_state, set_exiting}
use rawr.Call.Handlers.{Event, handle, handle_all, on_connect, answered, offered, established}
use rawr.Call.Handlers.{closed, called, on_answer, on_offer, update_media, is_null, on_establish}
use rawr.Call.Handlers.{terminate, answer_call, accept_call, Incoming}
use rawr.Call.Steps
use rawr.Call.Steps.{Step, Answers, sip_thread, release, finish, open_audio, open_codecs, open_sip}
use rawr.Call.Steps.{open_media, invite, run_loop, close_down, until_stopping, ends, course_of}
use rawr.Call.Steps.{◌>>=◌}
use rawr.Call.Parts.{handle_all-IsOpen}
use rawr.Call.Thread.{CanRelease, mem_deref_lem}

-- `sip_close` returns at once for NULL, and reads the SIP stack otherwise. A stack that the call has let
-- go is there as long as a session or a transaction of libre holds it, and freed memory after.
unfoldable pub close_sip : Bool → Pointer → Call → Outcome Call
close_sip held null call = returns call
close_sip held live call = returns call
close_sip held dangling call = if held then returns call else aborts

-- `rawr_Call_Stop`, up to the wait for the thread, by whether libre still holds the stack itself.
unfoldable pub stop : Bool → Call → Outcome Call
unfolding terminate close_sip
stop held call = close_sip held call.sip (terminate call)

-- No handler changes the SIP stack.
accept_call-sip : (incoming : Incoming) (call : Call) → (accept_call incoming call).1.sip ≡ call.sip
unfolding accept_call
accept_call-sip incoming call = elim (Bool-cases (incoming.encodes && incoming.accepts)) [
  | inl accepted ↦ rw accepted refl
  | inr refused ↦ rw refused refl
]

answer_call-sip : (incoming : Incoming) (call : Call) → (answer_call incoming call).1.sip ≡ call.sip
unfolding answer_call update_media
answer_call-sip incoming call = elim (Bool-cases incoming.got_offer) [
  | inr no_offer ↦ rw no_offer (accept_call-sip incoming call)
  | inl offer ↦ elim (Bool-cases incoming.decodes) [
    | inr garbled ↦ rw (offer, garbled) refl
    | inl decoded ↦ rw (offer, decoded) (accept_call-sip incoming _)
  ]
]

on_connect-sip : (incoming : Incoming) (call : Call) → (on_connect incoming call).1.sip ≡ call.sip
unfolding on_connect
on_connect-sip incoming call = elim (Bool-cases (is_null call.sip_sess)) [
  | inl idle ↦ rw idle (answer_call-sip incoming call)
  | inr busy ↦ rw busy refl
]

handle-sip : (event : Event) (call : Call) → (handle event call).sip ≡ call.sip
unfolding handle on_answer on_offer update_media on_establish terminate
handle-sip (answered true described) call = refl
handle-sip (answered false described) call = refl
handle-sip (offered true true described) call = refl
handle-sip (offered true false described) call = refl
handle-sip (offered false decodes described) call = refl
handle-sip established call = refl
handle-sip closed call = refl
handle-sip (called incoming) call = on_connect-sip incoming call

handle_all-sip : (events : List Event) (call : Call) → (handle_all events call).sip ≡ call.sip
unfolding handle_all
handle_all-sip [] call = refl
handle_all-sip (event ∷ events) call =
    handle_all-sip events (handle event call) ∙ handle-sip event call

release-sip :
    (call : Call)
    → CanRelease call
    → call.sip ≡ live
    → (after : Call) × (release call ≡ returns after)
      × (after.sip ≡ dangling)
      × (after.state ≡ call.state)
unfolding release mem_deref
release-sip call (sdp, sock, sess, sip, dns) is_live =
    let a = mem_deref_lem call.sdp_sess sdp in
    let b = mem_deref_lem call.rtp_sock sock in
    let c = mem_deref_lem call.sess_sock sess in
    let e = mem_deref_lem call.dns_client dns in
    (
      record call {
        sdp_sess = a.0;
        rtp_sock = b.0;
        sess_sock = c.0;
        sip = dangling;
        dns_client = e.0;
      },
      rw (release, a.1, b.1, c.1, is_live, e.1) refl,
      refl,
      refl,
    )

stop-dangling :
    (held : Bool) (call : Call)
    → call.sip ≡ dangling
    → stop held call ≡ (if held then returns (terminate call) else aborts)
unfolding stop close_sip
stop-dangling held call gone = ap (λ p. close_sip held p (terminate call)) gone

-- After the main loop.
close_down-sip :
    (ok : Answers) (events : List Event) (call : Call)
    → ((step : Step) → ok step ≡ true)
    → CanRelease call
    → call.state ≡ started
    → call.stream ≡ live
    → call.sip ≡ live
    → (after : Call) × (finish (run_loop ok events call >>= close_down ok) ≡ ends after)
      × (after.sip ≡ dangling)
      × (after.state ≡ stopping)
unfolding run_loop close_down set_state set_exiting finish
close_down-sip ok events call all (sdp, sock, sess, sip, dns) state stream is_live =
    let o = handle_all-IsOpen events call (state, stream, dns, sip, sess, sock, sdp) in
    let (after, e, gone, same) =
      release-sip
        (record (handle_all events call) {
          exiting = true;
          state = stopping;
          stream = dangling;
          encoder = dangling;
          decoder = dangling;
        })
        (o.6, o.5, o.4, o.3, o.2) (handle_all-sip events call ∙ is_live) in
    rw (all Steps.main_loop, all Steps.rtp_join, all Steps.stream_stop)
      (after, ap course_of e, gone, same)

-- Where every step of the SIP thread succeeds and the send thread ends, the SIP thread returns after
-- any calls of the handlers, and has let its SIP stack go. A caller that then waits for the call,
-- whose state nothing changes any more, returns at its first look. If it stops the call then, the stop
-- closes that stack all the same: where no session or transaction of libre holds it by then, the stop
-- faults, and where one does, the stop goes through.
pub stop-sip_thread :
    (ok : Answers) (events : List Event) (call : Call) (held : Bool)
    → ((step : Step) → ok step ≡ true)
    → (after : Call) × (sip_thread ok events call ≡ ends after)
      × (block_on_call 1 (λ t. after.state) 0 ≡ some success)
      × (stop held after ≡ (if held then returns (terminate after) else aborts))
unfolding sip_thread until_stopping open_audio open_codecs open_sip open_media invite set_state
    block_on_call keeps_waiting
stop-sip_thread ok events call held all =
    let inviting : Call = record call {
      state = started;
      stream = live;
      encoder = live;
      decoder = live;
      dns_client = live;
      sip = live;
      sess_sock = live;
      rtp_sock = live;
      sdp_sess = live;
      srtp_transmit = live;
      sip_sess = live;
    } in
    let (after, course, gone, state) =
      close_down-sip ok events inviting all (refl, refl, refl, refl, refl) refl refl refl in
    (
      after,
      rw
          (
            all Steps.audio_stream,
            all Steps.default_input,
            all Steps.default_output,
            all Steps.encoder_setup,
            all Steps.decoder_setup,
            all Steps.stream_start,
            all Steps.name_servers,
            all Steps.dns_alloc,
            all Steps.sip_alloc,
            all Steps.local_address,
            all Steps.tls_alloc,
            all Steps.transport,
            all Steps.session_listen,
            all Steps.udp_listen,
            all Steps.sdp_alloc,
            all Steps.sdp_media,
            all Steps.srtp_alloc,
            all Steps.sdp_format,
            all Steps.sdp_encode,
            all Steps.sip_connect,
          )
          course,
      rw state refl,
      stop-dangling held after gone,
    )

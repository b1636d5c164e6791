-- ===== src/Call/Thread.antt =====
-- `rawr_Call_SipThread` on every path: the state that it leaves, and what of the call's objects it
-- has let go.
use rawr.Common.{◌≡◌, refl, ◌∙◌, arith, Bool, true, false, ◌&&◌, List}
use rawr.Common.{if◌then◌else◌, not, ap, ◌⊎◌, returns, inl, inr, Bool-cases}
use rawr.Call.State.{Call, started, stopping, Pointer, null, live}
use rawr.Call.State.{dangling, mem_deref, set_state, set_exiting}
use rawr.Call.Steps.{Progress, goes, fails, waits, crashes, ◌>>=◌, Answers, Course, ends, hangs}
use rawr.Call.Steps.{open_audio, run_loop, close_down, until_stopping, course_of, rtp_join}
use rawr.Call.Steps.{
  finish, release, sip_thread, audio_stream, default_input, default_output, sip_connect,
}
use rawr.Call.Steps.{main_loop, stream_stop}
use rawr.Call.Handlers.{Event}
use rawr.Call.Parts.{
  can_release, is_live, IsOpen, Runs, codecs_ok, sip_ok, media_ok, open_codecs-Runs,
}
use rawr.Call.Parts.{open_sip-Runs, open_media-Runs, invite-Runs, handle_all-IsOpen}

-- Every step up to the end of the main loop succeeds.
abbrev pub reaches_end : Answers → Bool
reaches_end ok = codecs_ok ok && (sip_ok ok && (media_ok ok && (ok sip_connect && ok main_loop)))

-- The send thread does not end, where the thread gets as far as to wait for it.
abbrev pub hangs_at_join : Answers → Bool
hangs_at_join ok = reaches_end ok && not (ok rtp_join)

abbrev pub cleans_up : Answers → Bool
cleans_up ok = reaches_end ok && (ok rtp_join && ok stream_stop)

-- None of the references that `cleanup:` is to let go is held.
abbrev pub IsReleased : Call → Type 0
IsReleased call =
    (is_live call.sdp_sess ≡ false)
    × (is_live call.rtp_sock ≡ false)
    × (is_live call.sess_sock ≡ false)
    × (is_live call.sip ≡ false)
    × (is_live call.dns_client ≡ false)

abbrev pub CanRelease : Call → Type 0
CanRelease call =
    (can_release call.sdp_sess ≡ true)
    × (can_release call.rtp_sock ≡ true)
    × (can_release call.sess_sock ≡ true)
    × (can_release call.sip ≡ true)
    × (can_release call.dns_client ≡ true)

-- The call where the thread has come to the state Stopping, or has left for `cleanup:` before.
Reaches : Bool → Progress → Type 0
Reaches reached (goes call) =
    (reached ≡ true) × (call.state ≡ stopping) × (call.stream ≡ live) × CanRelease call
Reaches reached (fails call) =
    (reached ≡ false) × (call.state ≡ started) × (call.stream ≡ live) × CanRelease call
Reaches reached (waits call) = true ≡ false
Reaches reached crashes = true ≡ false

bind-Reaches :
    (condition reached : Bool) (p : Progress) (f : Call → Progress)
    → Runs condition p
    → ((call : Call) → IsOpen call → Reaches reached (f call))
    → Reaches (condition && reached) (p >>= f)
unfolding Runs Reaches
bind-Reaches condition reached (goes call) f runs next = rw runs.0 (next call runs.1)
bind-Reaches condition reached (fails call) f runs next =
    let o = runs.1 in rw runs.0 (refl, o.0, o.1, (o.6, o.5, o.4, o.3, o.2))
bind-Reaches condition reached (waits call) f runs next = runs
bind-Reaches condition reached crashes f runs next = runs

run_loop-Reaches :
    (ok : Answers) (events : List Event) (call : Call)
    → IsOpen call
    → Reaches (ok main_loop) (run_loop ok events call)
unfolding run_loop Reaches set_state set_exiting
run_loop-Reaches ok events call opened =
    let o = handle_all-IsOpen events call opened in
    elim (Bool-cases (ok main_loop)) [
      | inr failed ↦ rw failed (refl, o.0, o.1, (o.6, o.5, o.4, o.3, o.2))
      | inl ended ↦ rw ended (refl, refl, o.1, (o.6, o.5, o.4, o.3, o.2))
    ]

pub mem_deref_lem :
    (p : Pointer)
    → can_release p ≡ true
    → (q : Pointer) × (mem_deref p ≡ returns q) × (is_live q ≡ false)
unfolding mem_deref
mem_deref_lem null h = (null, refl, refl)
mem_deref_lem live h = (dangling, refl, refl)
mem_deref_lem dangling h = ground arith

release_lem :
    (call : Call)
    → CanRelease call
    → (after : Call) × (release call ≡ returns after)
      × (after.state ≡ call.state)
      × (after.stream ≡ call.stream)
      × IsReleased after
unfolding release
release_lem call (sdp, sock, sess, sip, dns) =
    let a = mem_deref_lem call.sdp_sess sdp in
    let b = mem_deref_lem call.rtp_sock sock in
    let c = mem_deref_lem call.sess_sock sess in
    let d = mem_deref_lem call.sip sip in
    let e = mem_deref_lem call.dns_client dns in
    (
      record call { sdp_sess = a.0; rtp_sock = b.0; sess_sock = c.0; sip = d.0; dns_client = e.0 },
      rw (release, a.1, b.1, c.1, d.1, e.1) refl,
      refl,
      refl,
      (a.2, b.2, c.2, d.2, e.2),
    )

-- From there on.
Ended : Answers → Bool → Course → Type 0
Ended ok reached course =
    (after : Call) × (course ≡ (if reached && not (ok rtp_join) then hangs after else ends after))
    × (after.state ≡ (if reached then stopping else started))
    × (after.stream ≡ (if reached && (ok rtp_join && ok stream_stop) then dangling else live))
    × ((reached && not (ok rtp_join) ≡ true) ⊎ IsReleased after)

close_down-Ended :
    (ok : Answers) (call : Call)
    → call.state ≡ stopping
    → call.stream ≡ live
    → CanRelease call
    → Ended ok true (finish (close_down ok call))
unfolding close_down finish Ended
close_down-Ended ok call state stream can = elim (Bool-cases (ok rtp_join)) [
  | inr waits_on ↦ rw waits_on (call, refl, state, stream, inl refl)
  | inl joined ↦ elim (Bool-cases (ok stream_stop)) [
    | inr failed ↦
        let (after, e, same, held, released) = release_lem call can in
        rw (joined, failed) (after, ap course_of e, same ∙ state, held ∙ stream, inr released)
    | inl silent ↦
        let closed : Call = record call {
          stream = dangling;
          encoder = dangling;
          decoder = dangling;
        } in
        let (after, e, same, held, released) = release_lem closed can in
        rw (joined, silent) (after, ap course_of e, same ∙ state, held, inr released)
  ]
]

finish-Ended :
    (ok : Answers) (reached : Bool) (p : Progress)
    → Reaches reached p
    → Ended ok reached (finish (p >>= close_down ok))
unfolding Reaches
finish-Ended ok reached (goes call) (e, state, stream, can) =
    rw e (close_down-Ended ok call state stream can)
finish-Ended ok reached (fails call) (e, state, stream, can) =
    let (after, goes_on, same, held, released) = release_lem call can in
    unfold Ended finish in
    rw e (after, ap course_of goes_on, same ∙ state, held ∙ stream, inr released)
finish-Ended ok reached (waits call) r = absurd (cc)
finish-Ended ok reached crashes r = absurd (cc)

module _ (ok : Answers) (events : List Event) (call : Call) (has_stream : ok audio_stream ≡ true)
    (has_input : ok default_input ≡ true) (has_output : ok default_output ≡ true) where
  -- Where the audio stream and both default devices are there, and no reference of the call was let
  -- go before, the thread neither faults nor is lost, whatever the handlers are called with. Where
  -- all steps up to the end of the main loop succeed and the send thread does not end, it waits for
  -- that for ever, in the state Stopping and with the audio stream held. On every other path it
  -- returns and holds none of the SIP, SDP, socket and DNS objects. The state is Stopping exactly
  -- where all steps up to the end of the main loop succeeded, and Started elsewhere; the audio stream
  -- is released exactly where the send thread ended and the stream could also be stopped, and is held
  -- elsewhere.
  pub sip_thread-ends :
      can_release call.sdp_sess ≡ true
      → can_release call.rtp_sock ≡ true
      → can_release call.sess_sock ≡ true
      → can_release call.sip ≡ true
      → (after : Call) × (sip_thread ok events call
          ≡ (if hangs_at_join ok then hangs after else ends after))
        × (after.state ≡ (if reaches_end ok then stopping else started))
        × (after.stream ≡ (if cleans_up ok then dangling else live))
        × ((hangs_at_join ok ≡ true) ⊎ IsReleased after)
  unfolding sip_thread until_stopping open_audio set_state Ended
  sip_thread-ends sdp sock sess sip =
      let opened : Call = record call { dns_client = null; state = started; stream = live } in
      let o : IsOpen opened = (refl, refl, refl, sip, sess, sock, sdp) in
      let parts = bind-Reaches (codecs_ok ok) _ _ _ (open_codecs-Runs ok opened o) (λ c1 o1.
        bind-Reaches (sip_ok ok) _ _ _ (open_sip-Runs ok c1 o1) (λ c2 o2.
          bind-Reaches (media_ok ok) _ _ _ (open_media-Runs ok c2 o2) (λ c3 o3.
            bind-Reaches (ok sip_connect) _ _ _ (invite-Runs ok c3 o3)
              (λ c4 o4. run_loop-Reaches ok events c4 o4)))) in
      rw (has_stream, has_input, has_output) (finish-Ended ok (reaches_end ok) _ parts)

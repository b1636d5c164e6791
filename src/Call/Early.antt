-- ===== src/Call/Early.antt =====
-- `rawr_Call_Stop` of src/Call.c, called while the SIP thread has not yet made its SIP stack.
use rawr.Common.{◌≡◌, refl, ap, sym, ◌∙◌, Bool, true, false, List, arith}
use rawr.Common.{returns, aborts}
use rawr.Call.State.{Call, null, started, set_state, set_exiting}
use rawr.Call.Handlers.{Event}
use rawr.Call.Handlers.{terminate}
use rawr.Call.Steps.{Progress, goes, crashes, Answers, ◌>>=◌}
use rawr.Call.Steps.{
  open_audio, open_codecs, open_sip, open_media, invite, run_loop, until_stopping,
}
use rawr.Call.Stop.{stop, close_sip}
use rawr.Call.Flag.{exits, IsDeaf, both-IsDeaf, >>=-exits, exits-exits}
use rawr.Call.Flag.{open_audio-set_exiting, open_codecs-set_exiting, open_sip-set_exiting}
use rawr.Call.Flag.{open_media-set_exiting, run_loop-set_exiting}

-- When a stop comes: once the thread has begun, once the audio is open, or once the codecs are open.
pub data Moment : Type 0 where
  begun audio_open codecs_open : Moment

-- A stop between two steps of the thread, or none.
unfoldable visit : Bool → Call → Progress
unfolding stop
visit false call = goes call
visit true call = elim (stop false call) [ aborts ↦ crashes | returns stopped ↦ goes stopped ]

-- `rawr_Call_SipThread` up to the state Stopping, with a stop at each of the moments that `stops` names.
pub stopped_thread : (Moment → Bool) → Answers → List Event → Call → Progress
unfolding visit open_audio open_codecs open_sip open_media invite run_loop set_state
stopped_thread stops ok events call = do
  first ← visit (stops begun) (set_state (record call { dns_client = null }) started)
  with_audio ← open_audio ok first
  second ← visit (stops audio_open) with_audio
  with_codecs ← open_codecs ok second
  third ← visit (stops codecs_open) with_codecs
  with_sip ← open_sip ok third
  with_media ← open_media ok with_sip
  inviting ← invite ok with_media
  run_loop ok events inviting

-- There is neither a SIP stack nor a session yet.
abbrev IsBare : Call → Type 0
IsBare call = (call.sip ≡ null) × (call.sip_sess ≡ null)

open_audio-IsBare :
    (ok : Answers) (call after : Call)
    → IsBare call
    → open_audio ok call ≡ goes after
    → IsBare after
unfolding open_audio
open_audio-IsBare ok call after (sip, sess) e = (ground arith, ground arith)

open_codecs-IsBare :
    (ok : Answers) (call after : Call)
    → IsBare call
    → open_codecs ok call ≡ goes after
    → IsBare after
unfolding open_codecs
open_codecs-IsBare ok call after (sip, sess) e = (ground arith, ground arith)

stop-bare : (call : Call) → IsBare call → stop false call ≡ returns (set_exiting call)
unfolding stop close_sip terminate set_exiting
stop-bare call (sip, sess) =
    ap (λ p. close_sip false p (terminate call)) sip
    ∙ ap (λ s. returns (record call { sip_sess = s; exiting = true })) (sym sess)

visit-bare : (call : Call) → IsBare call → visit true call ≡ goes (set_exiting call)
unfolding visit
visit-bare call bare = rw (visit, stop-bare call bare) refl

-- A stop at such a moment sets the flag and does nothing else.
visit-exits :
    (stops : Bool) (call : Call) (f g : Call → Progress)
    → IsBare call
    → IsDeaf g
    → ((c : Call) → IsBare c → exits (f c) ≡ exits (g c))
    → exits (visit stops call >>= f) ≡ exits (g call)
unfolding visit set_exiting
visit-exits false call f g bare deaf same = same call bare
visit-exits true call f g bare deaf same =
    ap (λ p. exits (p >>= f)) (visit-bare call bare)
    ∙ same (set_exiting call) bare
    ∙ ap exits (deaf call)
    ∙ exits-exits (g call)

module _ (stops : Moment → Bool) (ok : Answers) (events : List Event) where
  -- The thread from the codecs on, and from the audio on, without stops.
  abbrev from_sip : Call → Progress
  from_sip call = do
    with_sip ← open_sip ok call
    with_media ← open_media ok with_sip
    inviting ← invite ok with_media
    run_loop ok events inviting

  from_sip-IsDeaf : IsDeaf from_sip
  unfolding invite set_exiting
  from_sip-IsDeaf = both-IsDeaf (open_sip ok) _ (open_sip-set_exiting ok) (
      both-IsDeaf (open_media ok) _ (open_media-set_exiting ok)
        (both-IsDeaf (invite ok) _ (λ call. ground arith) (run_loop-set_exiting ok events)))

  abbrev from_codecs : Call → Progress
  from_codecs call = open_codecs ok call >>= from_sip

  abbrev from_audio : Call → Progress
  from_audio call = open_audio ok call >>= from_codecs

  from_codecs-IsDeaf : IsDeaf from_codecs
  from_codecs-IsDeaf =
      both-IsDeaf (open_codecs ok) from_sip (open_codecs-set_exiting ok) from_sip-IsDeaf

  from_audio-IsDeaf : IsDeaf from_audio
  from_audio-IsDeaf =
      both-IsDeaf (open_audio ok) from_codecs (open_audio-set_exiting ok) from_codecs-IsDeaf

  -- The same, with the stops.
  abbrev stopped_codecs : Call → Progress
  stopped_codecs call =
      open_codecs ok call >>= λ coded. visit (stops codecs_open) coded >>= from_sip

  abbrev stopped_audio : Call → Progress
  stopped_audio call =
      open_audio ok call >>= λ audible. visit (stops audio_open) audible >>= stopped_codecs

  stopped_codecs-exits :
      (call : Call) → IsBare call → exits (stopped_codecs call) ≡ exits (from_codecs call)
  stopped_codecs-exits call bare = >>=-exits (open_codecs ok call) _ from_sip (λ coded e.
      visit-exits (stops codecs_open) coded from_sip from_sip
        (open_codecs-IsBare ok call coded bare e) from_sip-IsDeaf (λ c b. refl))

  stopped_audio-exits :
      (call : Call) → IsBare call → exits (stopped_audio call) ≡ exits (from_audio call)
  stopped_audio-exits call bare = >>=-exits (open_audio ok call) _ from_codecs (λ audible e.
      visit-exits (stops audio_open) audible stopped_codecs from_codecs
        (open_audio-IsBare ok call audible bare e) from_codecs-IsDeaf stopped_codecs-exits)

  -- A call that has neither a SIP stack nor a session is stopped once its SIP thread has begun, once
  -- the audio is open, once the codecs are open, or at several of these moments. Whatever the steps of
  -- the thread answer and whatever the handlers are called with, the stop does not keep it from
  -- inviting the other side and from its main loop: up to the state Stopping, in which it will wait
  -- for the send thread, it goes on, leaves for its cleanup or faults exactly as it does without a stop,
  -- with the same call but for the flag that it is exiting.
  pub stopped_thread-until_stopping :
      (call : Call)
      → call.sip ≡ null
      → call.sip_sess ≡ null
      → exits (stopped_thread stops ok events call) ≡ exits (until_stopping ok events call)
  unfolding stopped_thread until_stopping set_state
  stopped_thread-until_stopping call sip sess =
      visit-exits (stops begun) (record call { dns_client = null; state = started }) stopped_audio
        from_audio (sip, sess) from_audio-IsDeaf stopped_audio-exits

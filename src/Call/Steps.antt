-- ===== src/Call/Steps.antt =====
-- `rawr_Call_SipThread` of src/Call.c, in its parts. libre is not part of the repository's own code:
-- whether each of its calls succeeds is an argument.
use rawr.Common.{Bool, not, List}
use rawr.Common.{if◌then◌else◌, Outcome, returns, aborts}
use rawr.Call.State.{Call, set_state, set_exiting, mem_deref, started, stopping, null, live}
use rawr.Call.State.{dangling}
use rawr.Call.Handlers.{Event, handle_all}

-- A step of the SIP thread: go on, jump to `cleanup`, wait for a thread that does not end, or end the
-- process.
pub data Progress : Type 0 where
  goes : Call → Progress
  fails : Call → Progress
  waits : Call → Progress
  crashes : Progress

infixl 5 ◌>>=◌
abbrev pub ◌>>=◌ : Progress → (Call → Progress) → Progress
goes call >>= f = f call
fails call >>= f = fails call
waits call >>= f = waits call
crashes >>= f = crashes

-- Each call of another part or of libre that the thread tests, and `rtp_join`, the wait for the send
-- thread, which returns or does not: the send thread looks at `threadExiting` only between packets, and
-- waits for samples of the stream without looking at it.
pub data Step : Type 0 where
  audio_stream default_input default_output encoder_setup decoder_setup stream_start : Step
  name_servers dns_alloc sip_alloc local_address tls_alloc transport session_listen : Step
  udp_listen sdp_alloc sdp_media srtp_alloc sdp_format sdp_encode sip_connect main_loop : Step
  rtp_join stream_stop : Step

-- Whether a step succeeds.
abbrev pub Answers : Type 0
Answers = Step → Bool

-- `if (err) goto cleanup`, with what the step stores when it succeeds.
abbrev pub guard : Bool → Call → Call → Progress
guard ok before after = if ok then goes after else fails before

-- With no stream, or no default device, the assertions of `rawr_AudioStream_AddDevice` fail.
unfoldable pub open_audio : Answers → Call → Progress
open_audio ok call =
    if not (ok audio_stream)
    then crashes
    else if not (ok default_input)
    then crashes
    else if not (ok default_output)
    then crashes
    else goes (record call { stream = live })

unfoldable pub open_codecs : Answers → Call → Progress
open_codecs ok call = do
  with_encoder ← guard (ok encoder_setup) call (record call { encoder = live })
  with_decoder ← guard (ok decoder_setup) with_encoder (record with_encoder { decoder = live })
  guard (ok stream_start) with_decoder with_decoder

unfoldable pub open_sip : Answers → Call → Progress
open_sip ok call = do
  found ← guard (ok name_servers) call call
  with_dns ← guard (ok dns_alloc) found (record found { dns_client = live })
  with_sip ← guard (ok sip_alloc) with_dns (record with_dns { sip = live })
  located ← guard (ok local_address) with_sip with_sip
  with_tls ← guard (ok tls_alloc) located located
  reachable ← guard (ok transport) with_tls with_tls
  guard (ok session_listen) reachable (record reachable { sess_sock = live })

-- A failed `srtp_alloc` is logged, and the offer is made all the same.
unfoldable pub open_media : Answers → Call → Progress
open_media ok call = do
  with_socket ← guard (ok udp_listen) call (record call { rtp_sock = live })
  with_sdp ← guard (ok sdp_alloc) with_socket (record with_socket { sdp_sess = live })
  with_media ← guard (ok sdp_media) with_sdp with_sdp
  keyed ← goes (if ok srtp_alloc then record with_media { srtp_transmit = live } else with_media)
  with_format ← guard (ok sdp_format) keyed keyed
  guard (ok sdp_encode) with_format with_format

unfoldable pub invite : Answers → Call → Progress
invite ok call = guard (ok sip_connect) call (record call { sip_sess = live })

-- The main loop, up to the state Stopping. `events` is what the handlers were called with meanwhile.
unfoldable pub run_loop : Answers → List Event → Call → Progress
unfolding set_exiting set_state handle_all
run_loop ok events call = do
  ended ← guard (ok main_loop) (handle_all events call) (handle_all events call)
  goes (set_state (set_exiting ended) stopping)

-- From the wait for the send thread on: `rawr_AudioStream_Cleanup` and the two `rawr_Codec_Cleanup`
-- let their objects go.
unfoldable pub close_down : Answers → Call → Progress
close_down ok call = if not (ok rtp_join) then waits call else do
  silent ← guard (ok stream_stop) call call
  goes (record silent { stream = dangling; encoder = dangling; decoder = dangling })

-- The references that `cleanup:` lets go, in its order.
unfoldable pub release : Call → Outcome Call
unfolding mem_deref
release call = elim (mem_deref call.sdp_sess) [
  | aborts ↦ aborts
  | returns sdp ↦ elim (mem_deref call.rtp_sock) [
    | aborts ↦ aborts
    | returns sock ↦ elim (mem_deref call.sess_sock) [
      | aborts ↦ aborts
      | returns sess ↦ elim (mem_deref call.sip) [
        | aborts ↦ aborts
        | returns sip ↦ elim (mem_deref call.dns_client) [
          | aborts ↦ aborts
          | returns dns ↦ returns (record call {
            sdp_sess = sdp;
            rtp_sock = sock;
            sess_sock = sess;
            sip = sip;
            dns_client = dns;
          })
        ]
      ]
    ]
  ]
]

-- What becomes of the thread: it returns, waits for ever, or ends the process.
pub data Course : Type 0 where
  ends hangs : Call → Course
  faults : Course

abbrev pub course_of : Outcome Call → Course
course_of (returns call) = ends call
course_of aborts = faults

-- The end of the thread: both ways lead to `cleanup:`.
unfoldable pub finish : Progress → Course
unfolding release
finish (goes call) = course_of (release call)
finish (fails call) = course_of (release call)
finish (waits call) = hangs call
finish crashes = faults

-- The thread up to the state Stopping.
unfoldable pub until_stopping : Answers → List Event → Call → Progress
unfolding open_audio open_codecs open_sip open_media invite run_loop set_state
until_stopping ok events call = do
  with_audio ← open_audio ok (set_state (record call { dns_client = null }) started)
  with_codecs ← open_codecs ok with_audio
  with_sip ← open_sip ok with_codecs
  with_media ← open_media ok with_sip
  inviting ← invite ok with_media
  run_loop ok events inviting

-- `rawr_Call_SipThread`
unfoldable pub sip_thread : Answers → List Event → Call → Course
unfolding until_stopping close_down finish
sip_thread ok events call = finish (until_stopping ok events call >>= close_down ok)

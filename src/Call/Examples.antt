-- ===== src/Call/Examples.antt =====
-- Runs of the call's functions.
use rawr.Common.{some, success}
use rawr.Common.{ℕ, zero, suc, Bool, ◌≡◌, refl, true, false, List, [], ◌∷◌, none}
use rawr.Common.{aborts, ◌⊎◌}
use rawr.Call.Early.{Moment, codecs_open, audio_open, begun, stopped_thread}
use rawr.Call.Flag.{exits}
use rawr.Call.Early.{stopped_thread-until_stopping}
use rawr.Call.Stop.{stop, stop-sip_thread}
use rawr.Call.State.{Call, CallState, started, stopping, live}
use rawr.Call.State.{fresh_call, block_on_call, start}
use rawr.Call.Steps.{Answers, sip_thread, sip_alloc, rtp_join, until_stopping, ends, hangs}
use rawr.Call.Handlers.{Event, answered, established, closed, Incoming, Media}
use rawr.Call.Handlers.{on_connect, handle_all}
use rawr.Call.Thread.{sip_thread-ends, IsReleased}
use rawr.Call.Block.{block_on_call-after_thread}
use rawr.Call.Session.{Answered, on_connect-Answered, receive_key-stays}

abbrev all_ok : Answers
all_ok step = true

-- There is no SIP stack.
abbrev no_sip : Answers
no_sip sip_alloc = false
no_sip step = true

-- The send thread waits for samples that do not come.
abbrev no_join : Answers
no_join rtp_join = false
no_join step = true

abbrev opus : Media
opus = record { format = true; crypto = some (1 ∷ 2 ∷ 3 ∷ []) }

abbrev caller : Incoming
caller = record {
  got_offer = false;
  decodes = true;
  described = opus;
  encodes = true;
  accepts = true;
}

abbrev talk : List Event
talk = answered true opus ∷ established ∷ closed ∷ []

sip_thread-ends_example :
    (after : Call) × (sip_thread no_join talk fresh_call ≡ hangs after)
    × (after.state ≡ stopping)
    × (after.stream ≡ live)
    × ((true ≡ true) ⊎ IsReleased after)
unfolding fresh_call
sip_thread-ends_example = sip_thread-ends no_join talk fresh_call refl refl refl refl refl refl refl

-- The call ends at the third look.
abbrev looks : ℕ → CallState
looks (suc (suc zero)) = stopping
looks t = started

block_on_call-after_thread_example :
    (after : Call) × (sip_thread no_sip talk fresh_call ≡ ends after)
    × (block_on_call 1000 (λ t. after.state) 0 ≡ none)
unfolding fresh_call
block_on_call-after_thread_example =
    block_on_call-after_thread no_sip talk fresh_call 999 refl refl refl refl refl refl refl

on_connect-Answered_example : Answered fresh_call (on_connect caller fresh_call)
on_connect-Answered_example = on_connect-Answered caller fresh_call

receive_key-stays_example :
    (handle_all talk
      (start true (record fresh_call { srtp_receive = some (9 ∷ []) })).1).srtp_receive
    ≡ some (9 ∷ [])
receive_key-stays_example =
    receive_key-stays true talk (record fresh_call { srtp_receive = some (9 ∷ []) }) refl

stop-sip_thread_example :
    (after : Call) × (sip_thread all_ok talk fresh_call ≡ ends after)
    × (block_on_call 1 (λ t. after.state) 0 ≡ some success)
    × (stop false after ≡ aborts)
stop-sip_thread_example = stop-sip_thread all_ok talk fresh_call false (λ step. refl)

-- A stop while the audio stream starts.
abbrev once_coded : Moment → Bool
once_coded begun = false
once_coded audio_open = false
once_coded codecs_open = true

stopped_thread-until_stopping_example :
    exits (stopped_thread once_coded all_ok talk fresh_call)
    ≡ exits (until_stopping all_ok talk fresh_call)
unfolding fresh_call
stopped_thread-until_stopping_example =
    stopped_thread-until_stopping once_coded all_ok talk fresh_call refl refl

-- ===== src/Call/Block.antt =====
-- `rawr_Call_BlockOnCall`: when its loop ends, and after which ends of the SIP thread it does.
use rawr.Common.{ℕ, zero, suc, ◌+◌, ◌≤◌, ◌<◌, ◌≡◌, refl, ap, ◌∙◌, arith, Bool, true, false}
use rawr.Common.{if◌then◌else◌, none, some, success, List}
use rawr.Common.{Bool-cases, inl, inr}
use rawr.Call.State.{Call, CallState, started, stopping, keeps_waiting, block_on_call}
use rawr.Call.Steps.{Answers, sip_thread, audio_stream, default_input, default_output}
use rawr.Call.Handlers.{Event}
use rawr.Call.Parts.{can_release}
use rawr.Call.Thread.{reaches_end, hangs_at_join, sip_thread-ends}
use rawr.Call.Steps.{ends, hangs}
use native.Mathlib.Decide.{ℕ_discrete}

returns_from :
    (looks : ℕ) (states : ℕ → CallState) (look t : ℕ)
    → look ≤ t
    → t < look + looks
    → keeps_waiting (states t) ≡ false
    → block_on_call looks states look ≡ some success
unfolding block_on_call
returns_from zero states look t from to over = absurd (omega arith)
returns_from (suc looks) states look t from to over = elim (ℕ_discrete look t) [
  | yes here ↦ rw (here, over) refl
  | no later ↦
      let rest = returns_from looks states (look + 1) t (omega arith) (omega arith) over in
      elim (Bool-cases (keeps_waiting (states look))) [
        | inl waits ↦ rw (waits, rest) refl
        | inr done ↦ rw done refl
      ]
]

-- The caller is let go once a look meets a state in which the call is over, whatever comes after.
block_on_call-returns :
    (states : ℕ → CallState) (t : ℕ)
    → keeps_waiting (states t) ≡ false
    → block_on_call (suc t) states 0 ≡ some success
block_on_call-returns states t over =
    returns_from (suc t) states 0 t (omega arith) (omega arith) over

-- A call in one state: the first look decides, or none does.
block_on_call-constant :
    (looks : ℕ) (state : CallState) (look : ℕ)
    → block_on_call (suc looks) (λ t. state) look
      ≡ (if keeps_waiting state then none else some success)
unfolding block_on_call
block_on_call-constant zero state look = refl
block_on_call-constant (suc looks) state look =
    ap (λ later. if keeps_waiting state then later else some success)
      (block_on_call-constant looks state (look + 1))
    ∙ if_twice (keeps_waiting state)
  where
    if_twice :
        (waits : Bool)
        → (if waits then (if waits then none else some success) else some success)
          ≡ (if waits then none else some success)
    if_twice true = refl
    if_twice false = refl

waits_after :
    (reached : Bool) (state : CallState)
    → state ≡ (if reached then stopping else started)
    → (if keeps_waiting state then none else some success)
      ≡ (if reached then some success else none)
unfolding keeps_waiting
waits_after true state e = rw e refl
waits_after false state e = rw e refl

-- Where the audio stream and both default devices are there, and no reference of the call was let
-- go before, the SIP thread returns, or waits for ever where it comes to wait for a send thread that
-- does not end. A caller that then waits for the call, whose state nothing changes any more, returns
-- at its first look where every step up to the end of the main loop succeeded, whether or not the
-- thread has ended; where one failed, no number of looks lets it go.
pub block_on_call-after_thread :
    (ok : Answers) (events : List Event) (call : Call) (looks : ℕ)
    → ok audio_stream ≡ true
    → ok default_input ≡ true
    → ok default_output ≡ true
    → can_release call.sdp_sess ≡ true
    → can_release call.rtp_sock ≡ true
    → can_release call.sess_sock ≡ true
    → can_release call.sip ≡ true
    → (after : Call) × (sip_thread ok events call
        ≡ (if hangs_at_join ok then hangs after else ends after))
      × (block_on_call (suc looks) (λ t. after.state) 0
          ≡ (if reaches_end ok then some success else none))
block_on_call-after_thread ok events call looks stream inp out sdp sock sess sip =
    let (after, course, state, _, _) =
      sip_thread-ends ok events call stream inp out sdp sock sess sip in
    (
      after,
      course,
      block_on_call-constant looks after.state 0 ∙ waits_after (reaches_end ok) after.state state,
    )

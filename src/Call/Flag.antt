-- ===== src/Call/Flag.antt =====
-- The SIP thread of src/Call.c and the flag `threadExiting`, which none of its steps reads before it waits for the
-- send thread.
use rawr.Common.{◌≡◌, refl, ap, ◌∙◌, List, [], ◌∷◌, arith}
use rawr.Call.State.{Call, set_state, set_exiting}
use rawr.Call.Handlers.{Event, handle, handle_all, on_connect}
use rawr.Call.Handlers.{on_answer, on_offer, update_media, on_establish}
use rawr.Call.Handlers.{terminate, answer_call, accept_call}
use rawr.Call.Steps.{Progress, goes, fails, waits, crashes, Answers, ◌>>=◌}
use rawr.Call.Steps.{open_audio, open_codecs, open_sip, open_media, run_loop}

-- With `threadExiting` set.
abbrev pub exits : Progress → Progress
exits (goes call) = goes (set_exiting call)
exits (fails call) = fails (set_exiting call)
exits (waits call) = waits (set_exiting call)
exits crashes = crashes

pub open_audio-set_exiting :
    (ok : Answers) (call : Call) → open_audio ok (set_exiting call) ≡ exits (open_audio ok call)
unfolding open_audio set_exiting
open_audio-set_exiting ok call = ground arith

pub open_codecs-set_exiting :
    (ok : Answers) (call : Call) → open_codecs ok (set_exiting call) ≡ exits (open_codecs ok call)
unfolding open_codecs set_exiting
open_codecs-set_exiting ok call = ground arith

pub open_sip-set_exiting :
    (ok : Answers) (call : Call) → open_sip ok (set_exiting call) ≡ exits (open_sip ok call)
unfolding open_sip set_exiting
open_sip-set_exiting ok call = ground arith

pub open_media-set_exiting :
    (ok : Answers) (call : Call) → open_media ok (set_exiting call) ≡ exits (open_media ok call)
unfolding open_media set_exiting
open_media-set_exiting ok call = ground arith

handle-set_exiting :
    (event : Event) (call : Call)
    → handle event (set_exiting call) ≡ set_exiting (handle event call)
unfolding handle on_answer on_offer update_media on_establish terminate on_connect answer_call
    accept_call set_exiting
handle-set_exiting event call = ground arith

handle_all-set_exiting :
    (events : List Event) (call : Call)
    → handle_all events (set_exiting call) ≡ set_exiting (handle_all events call)
unfolding handle_all
handle_all-set_exiting [] call = refl
handle_all-set_exiting (event ∷ events) call =
    ap (handle_all events) (handle-set_exiting event call)
    ∙ handle_all-set_exiting events (handle event call)

pub run_loop-set_exiting :
    (ok : Answers) (events : List Event) (call : Call)
    → run_loop ok events (set_exiting call) ≡ exits (run_loop ok events call)
unfolding run_loop set_exiting set_state
run_loop-set_exiting ok events call =
    rw (run_loop, handle_all-set_exiting events call) (ground arith)

-- What does the same with the flag set, but for the flag.
abbrev pub IsDeaf : (Call → Progress) → Type 0
IsDeaf f = (call : Call) → f (set_exiting call) ≡ exits (f call)

>>=-IsDeaf :
    (progress : Progress) (f : Call → Progress)
    → IsDeaf f
    → (exits progress >>= f) ≡ exits (progress >>= f)
>>=-IsDeaf (goes call) f deaf = deaf call
>>=-IsDeaf (fails call) f deaf = refl
>>=-IsDeaf (waits call) f deaf = refl
>>=-IsDeaf crashes f deaf = refl

pub both-IsDeaf :
    (first second : Call → Progress)
    → IsDeaf first
    → IsDeaf second
    → IsDeaf (λ call. first call >>= second)
both-IsDeaf first second deaf_first deaf_second call =
    ap (λ p. p >>= second) (deaf_first call) ∙ >>=-IsDeaf (first call) second deaf_second

pub >>=-exits :
    (progress : Progress) (f g : Call → Progress)
    → ((call : Call) → progress ≡ goes call → exits (f call) ≡ exits (g call))
    → exits (progress >>= f) ≡ exits (progress >>= g)
>>=-exits (goes call) f g same = same call refl
>>=-exits (fails call) f g same = refl
>>=-exits (waits call) f g same = refl
>>=-exits crashes f g same = refl

pub exits-exits : (progress : Progress) → exits (exits progress) ≡ exits progress
unfolding set_exiting
exits-exits (goes call) = refl
exits-exits (fails call) = refl
exits-exits (waits call) = refl
exits-exits crashes = refl

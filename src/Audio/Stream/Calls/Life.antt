-- ===== src/Audio/Stream/Calls/Life.antt =====
-- What a stream of src/AudioPA.c keeps from its setup to `rawr_AudioStream_Cleanup`: its memory, and
-- the streams that PortAudio has open for it.
use rawr.Common.{ℕ, suc, ◌+◌, ◌-◌, ◌≡◌, refl, ap, ◌∙◌, arith, Bool, true, false, if◌then◌else◌}
use rawr.Common.{List, [], ◌∷◌, Option, none, some, ℤ, u32, ◌*◌, ErrorCode, success, failure}
use rawr.Common.{not, ◌==◌, ◌⊎◌, inl, inr, Bool-cases}
use rawr.RingBuffer.{initialize}
use rawr.Audio.Stream.{zeroed, block, stream_setup, made, no_stream, no_private_part}
use rawr.Audio.Stream.Setup.{ring_samples_pass, stream_setup-made}
use rawr.Audio.Stream.{AudioStream, StreamMemory, ring_samples, sample_bytes}
use rawr.Audio.Stream.Calls.{start, stop, PaHandle, null, opened, invalid}
use rawr.Common.{Outcome, returns, aborts, ap₂, ◌&&◌}
use rawr.Audio.Stream.Calls.{
  PaCall, open_stream, start_stream, close_stream, abort_stream, stop_stream,
}

-- The blocks of memory that are acquired and not released.
pub record Blocks : Type 0 where
  pub stream : Bool
  pub private_part : Bool
  pub data_to : Bool
  pub data_from : Bool

abbrev pub no_blocks : Blocks
no_blocks = record { stream = false; private_part = false; data_to = false; data_from = false }

-- What a life of the stream keeps, and its `pa_stream`.
pub record Kept : Type 0 where
  pub blocks : Blocks
  pub open_streams : ℕ
  pub pa_stream : PaHandle

abbrev pub nothing_kept : Kept
nothing_kept = record { blocks = no_blocks; open_streams = 0; pa_stream = null }

abbrev is_given : Option (List ℕ) → Bool
is_given none = false
is_given (some bytes) = true

-- `rawr_AudioStream_Setup`: without memory for the private part it returns at once; a ring that is
-- refused leads to `cleanup`, which releases all.
pub setup_keeps : StreamMemory → ℤ → Kept
setup_keeps memory sample_count =
    let num_samples = ring_samples sample_count in
    let num_bytes = u32 (num_samples * sample_bytes) in
    let to_ring = initialize zeroed sample_bytes num_samples (block (memory.data_to num_bytes)) in
    let from_ring =
      initialize zeroed sample_bytes num_samples (block (memory.data_from num_bytes)) in
    if not memory.stream
    then nothing_kept
    else if not memory.private_part
    then record nothing_kept { blocks = record no_blocks { stream = true } }
    else if not (to_ring.0 == 0)
    then nothing_kept
    else if not (from_ring.0 == 0)
    then nothing_kept
    else record {
      blocks = record {
        stream = true;
        private_part = true;
        data_to = is_given (memory.data_to num_bytes);
        data_from = is_given (memory.data_from num_bytes);
      };
      open_streams = 0;
      pa_stream = null;
    }

-- The streams that PortAudio has open after calls, where `opens` says whether it opens one.
pub open_after : Bool → List PaCall → ℕ → ℕ
open_after opens [] n = n
open_after opens (open_stream inputs outputs rate frames ∷ calls) n =
    open_after opens calls (if opens then suc n else n)
open_after opens (close_stream ∷ calls) n = open_after opens calls (n - 1)
open_after opens (start_stream ∷ calls) n = open_after opens calls n
open_after opens (abort_stream ∷ calls) n = open_after opens calls n
open_after opens (stop_stream ∷ calls) n = open_after opens calls n

-- A start or a stop, with what PortAudio answers, and what it leaves in `pa_stream` where it opens
-- nothing.
pub data LifeCall : Type 0 where
  starts : PaHandle → Bool → Bool → LifeCall
  stops : ℤ → LifeCall

pub life_call : AudioStream → LifeCall → Kept → Outcome Kept
life_call stream (starts left opens runs) kept =
    let (code, calls, handle) = start left opens runs stream in
    returns
      (record kept { open_streams = open_after opens calls kept.open_streams; pa_stream = handle })
life_call stream (stops answer) kept = elim (stop kept.pa_stream answer) [
  | aborts ↦ aborts
  | returns (code, calls) ↦
      returns (record kept { open_streams = open_after false calls kept.open_streams })
]

pub run_life : AudioStream → List LifeCall → Kept → Outcome Kept
run_life stream [] kept = returns kept
run_life stream (call ∷ calls) kept = elim (life_call stream call kept) [
  | aborts ↦ aborts
  | returns after ↦ run_life stream calls after
]

-- `rawr_AudioStream_Cleanup`, which releases the four blocks, `pa_stream` with the private part, and
-- calls nothing of PortAudio.
pub stream_cleanup : Kept → Kept
stream_cleanup kept =
    let kept = record kept { blocks = record kept.blocks { data_to = false } } in
    let kept = record kept { blocks = record kept.blocks { data_from = false } } in
    let kept = record kept {
      blocks = record kept.blocks { private_part = false };
      pa_stream = null;
    } in
    record kept { blocks = record kept.blocks { stream = false } }

abbrev pub cleaned_up : Outcome Kept → Outcome Kept
cleaned_up aborts = aborts
cleaned_up (returns kept) = returns (stream_cleanup kept)

-- The starts that returned success.
abbrev pub one_if_success : ErrorCode → ℕ
one_if_success success = 1
one_if_success failure = 0

pub successes : AudioStream → List LifeCall → ℕ
successes stream [] = 0
successes stream (starts left opens runs ∷ calls) =
    one_if_success (start left opens runs stream).0 + successes stream calls
successes stream (stops answer ∷ calls) = successes stream calls

open_after-start :
    (left : PaHandle) (opens runs : Bool) (stream : AudioStream) (n : ℕ)
    → open_after opens (start left opens runs stream).1 n
      ≡ one_if_success (start left opens runs stream).0 + n
unfolding open_after start
open_after-start left true true stream n = omega arith
open_after-start left true false stream n = omega arith
open_after-start left false runs stream n = omega arith

-- What is in `pa_stream` after a start.
abbrev pub handle_after : PaHandle → Bool → Bool → PaHandle
handle_after left opens runs = if not opens then left else if runs then opened else invalid

-- No stop comes while `pa_stream` is a pointer to no stream.
abbrev pub may_stop : PaHandle → Bool
may_stop null = true
may_stop opened = true
may_stop invalid = false

abbrev pub stops_open : PaHandle → List LifeCall → Bool
stops_open handle [] = true
stops_open handle (starts left opens runs ∷ calls) = stops_open (handle_after left opens runs) calls
stops_open handle (stops answer ∷ calls) = may_stop handle && stops_open handle calls

-- What is left of a life that ends in a cleanup, with so many streams open.
abbrev pub left_open : ℕ → Kept
left_open n = record { blocks = no_blocks; open_streams = n; pa_stream = null }

stop-may_stop :
    (handle : PaHandle) (answer : ℤ)
    → stop handle answer ≡ (if may_stop handle then returns (answer, stop_stream ∷ []) else aborts)
unfolding stop
stop-may_stop null answer = refl
stop-may_stop opened answer = refl
stop-may_stop invalid answer = refl

start-handle :
    (left : PaHandle) (opens runs : Bool) (stream : AudioStream)
    → (start left opens runs stream).2 ≡ handle_after left opens runs
unfolding start
start-handle left true true stream = refl
start-handle left true false stream = refl
start-handle left false runs stream = refl

run_life-cleaned_up :
    (stream : AudioStream) (calls : List LifeCall) (kept : Kept)
    → cleaned_up (run_life stream calls kept) ≡ (
        if stops_open kept.pa_stream calls
        then returns (left_open (successes stream calls + kept.open_streams))
        else aborts)
unfolding run_life life_call successes stream_cleanup open_after
run_life-cleaned_up stream [] kept = ap (λ n. returns (left_open n)) (omega arith)
run_life-cleaned_up stream (starts left opens runs ∷ calls) kept =
    run_life-cleaned_up stream calls (record kept {
      open_streams = open_after opens (start left opens runs stream).1 kept.open_streams;
      pa_stream = (start left opens runs stream).2;
    })
    ∙ ap₂ (λ handle n. if stops_open handle calls then returns (left_open n) else aborts)
        (start-handle left opens runs stream)
        (omega (arith, open_after-start left opens runs stream kept.open_streams))
run_life-cleaned_up stream (stops answer ∷ calls) kept =
    elim (Bool-cases (may_stop kept.pa_stream)) [
      | inl fine ↦
          rw (run_life, life_call, stop-may_stop kept.pa_stream answer, fine)
            (run_life-cleaned_up stream calls kept)
      | inr closed ↦ rw (run_life, life_call, stop-may_stop kept.pa_stream answer, closed) refl
    ]

setup_keeps-open :
    (memory : StreamMemory) (sample_count : ℤ)
    → memory.stream ≡ true
    → memory.private_part ≡ true
    → ((setup_keeps memory sample_count).open_streams ≡ 0)
      × ((setup_keeps memory sample_count).pa_stream ≡ null)
unfolding setup_keeps
setup_keeps-open memory sample_count m p =
    rw (m, p, ring_samples_pass sample_count _, ring_samples_pass sample_count _) (refl, refl)

-- A setup makes a stream exactly where it has memory for the stream and for its private part. Without
-- the first it keeps nothing; without the second alone it keeps the stream's memory, which nobody can
-- release any more. A stream that was made is started and stopped in any order, whatever PortAudio
-- answers, and then cleaned up. A stop faults where the last start opened a stream that could not be
-- started, since `pa_stream` still names it after it was closed, or where that start could not open one
-- and PortAudio left a pointer there that is no stream. Every other life releases all four blocks of
-- memory, and leaves one stream open in PortAudio for each start that returned success: a failed start
-- leaves none, and neither a stop nor the cleanup closes one.
pub stream_cleanup-setup_keeps :
    (memory : StreamMemory) (sample_rate : ℕ) (channel_count sample_count : ℤ)
    (calls : List LifeCall)
    → (memory.stream ≡ true)
        × (memory.private_part ≡ true)
        × ((stream : AudioStream) × (stream_setup memory sample_rate channel_count sample_count
              ≡ made stream)
            × (cleaned_up (run_life stream calls (setup_keeps memory sample_count)) ≡ (
                if stops_open null calls
                then returns (left_open (successes stream calls))
                else aborts)))
      ⊎ (memory.stream ≡ false)
        × (stream_setup memory sample_rate channel_count sample_count ≡ no_stream)
        × (setup_keeps memory sample_count ≡ nothing_kept)
      ⊎ (memory.stream ≡ true)
        × (memory.private_part ≡ false)
        × (stream_setup memory sample_rate channel_count sample_count ≡ no_private_part)
        × (setup_keeps memory sample_count
            ≡ record nothing_kept { blocks = record no_blocks { stream = true } })
unfolding stream_setup setup_keeps
stream_cleanup-setup_keeps memory sample_rate channel_count sample_count calls =
    elim (Bool-cases memory.stream) [
      | inr m ↦ inr (inl (m, rw m refl, rw m refl))
      | inl m ↦ elim (Bool-cases memory.private_part) [
        | inr p ↦ inr (inr (m, p, rw (m, p) refl, rw (m, p) refl))
        | inl p ↦
            let (none_open, no_handle) = setup_keeps-open memory sample_count m p in
            inl (
              m,
              p,
              (
                _,
                stream_setup-made memory sample_rate channel_count sample_count m p,
                run_life-cleaned_up _ calls (setup_keeps memory sample_count)
                    ∙ ap₂
                        (λ handle n.
                          if stops_open handle calls then returns (left_open n) else aborts)
                        no_handle (omega (arith, none_open)),
              ),
            )
      ]
    ]

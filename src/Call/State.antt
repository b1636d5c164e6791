-- ===== src/Call/State.antt =====
-- src/Call.c and include/rawr/Call.h: the state of a call, and the functions of its owner.
use rawr.Common.{ℕ, zero, suc, ◌+◌, Bool, true, false, not, List, Option, none, some}
use rawr.Common.{if◌then◌else◌, ErrorCode, success, failure, Outcome, returns, aborts}

-- `rawr_CallState`
pub data CallState : Type 0 where
  no_state starting started connecting ready progressing media connected stopping stopped :
      CallState

-- A pointer of the call: NULL, to an object that it refers to, or to one that it has let go.
pub data Pointer : Type 0 where
  null live dangling : Pointer

-- `rawr_Call`, less its texts, rates and samples; `srtp_receive` is the key of the receiving context,
-- where there is one; `dns_client` is the local `dnsClient` of the thread,
-- and `rtp_threads` counts the launches of the send thread.
pub record Call : Type 0 where
  pub state : CallState
  pub exiting : Bool
  pub rtp_receiver : Bool
  pub rtp_threads : ℕ
  pub encoder : Pointer
  pub decoder : Pointer
  pub stream : Pointer
  pub sip : Pointer
  pub rtp_sock : Pointer
  pub sip_sess : Pointer
  pub sdp_sess : Pointer
  pub sess_sock : Pointer
  pub srtp_transmit : Pointer
  pub srtp_receive : Option (List ℕ)
  pub dns_client : Pointer

-- After `memset` in `rawr_Call_Setup`.
unfoldable pub fresh_call : Call
fresh_call = record {
  state = no_state;
  exiting = false;
  rtp_receiver = false;
  rtp_threads = 0;
  encoder = null;
  decoder = null;
  stream = null;
  sip = null;
  rtp_sock = null;
  sip_sess = null;
  sdp_sess = null;
  sess_sock = null;
  srtp_transmit = null;
  srtp_receive = none;
  dns_client = null;
}

-- `memory` and `thread` say whether the call's memory and `mn_thread_setup` are had; a failed thread
-- leaves the call behind in `*out_call`.
pub call_setup : Bool → Bool → ErrorCode × Option Call
call_setup memory thread =
    if not memory
    then (failure, none)
    else if not thread
    then (failure, some fresh_call)
    else (success, some fresh_call)

-- `rawr_Call_Reset`, for the fields kept here.
unfoldable pub reset : Call → Call
reset call = record call { exiting = false; rtp_receiver = false }

unfoldable pub set_state : Call → CallState → Call
set_state call state = record call { state = state }

unfoldable pub set_exiting : Call → Call
set_exiting call = record call { exiting = true }

-- `rawr_Call_Start`, up to the launch of the thread.
unfoldable pub start : Bool → Call → ErrorCode × Call
unfolding reset set_state
start launches call =
    let starting_call = set_state (reset call) starting in
    if not launches then (failure, starting_call) else (success, starting_call)

-- `mem_deref` of a reference that is held lets it go, and of NULL does nothing; of a reference that
-- was let go it reads freed memory.
unfoldable pub mem_deref : Pointer → Outcome Pointer
mem_deref null = returns null
mem_deref live = returns dangling
mem_deref dangling = aborts

-- The states in which `rawr_Call_BlockOnCall` sleeps and looks again.
unfoldable pub keeps_waiting : CallState → Bool
keeps_waiting no_state = false
keeps_waiting stopping = false
keeps_waiting stopped = false
keeps_waiting state = true

-- `rawr_Call_BlockOnCall`, of the state as it is at each look from the first on; `none` is a caller
-- that still waits after so many looks.
unfoldable pub block_on_call : ℕ → (ℕ → CallState) → ℕ → Option ErrorCode
block_on_call zero states look = none
block_on_call (suc looks) states look =
    let later = block_on_call looks states (look + 1) in
    if keeps_waiting (states look) then later else some success

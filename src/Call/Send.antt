-- ===== src/Call/Send.antt =====
-- `rawr_Call_RtpSendThread` of src/Call.c: the packets that it sends, and what it counts. `size_t`
-- and `uint64_t` have 64 bits and wrap; a header field takes the low bits of what it is given.
pub mod Numbering
mod Examples
use rawr.Common.{ℕ, zero, suc, ◌+◌, ◌*◌, ◌%◌, ◌^◌, ◌≡◌, Bool, true, false, not, List, [], ◌∷◌}
use rawr.Common.{Option, none, some, ltb, ◌==◌, if◌then◌else◌, add_size, sub_size, u32, u16}
use rawr.Common.{ℤ, pos, negsuc, is_negative, Outcome, returns, aborts}
use rawr.Codec.{Opus, Codec, encode, frame_size}

-- `rtp_header`, less the fields that are always 0 and the version.
pub record Header : Type 0 where
  pub marker : Bool
  pub payload_type : ℕ
  pub seq : ℕ
  pub timestamp : ℕ
  pub ssrc : ℕ

-- A packet that was sent: its header, and the bytes that the encoder gave.
pub record Sent : Type 0 where
  pub header : Header
  pub bytes : ℕ

-- The thread's variables, and those of the call that it changes.
pub record Sender : Type 0 where
  pub rtp_time : ℕ
  pub bytes_send : ℕ
  pub send_total : ℕ
  pub send_rate : ℕ
  pub rtp_seq : ℕ
  pub tstamp_last : ℕ
  pub last_recv_count : ℕ
  pub recv_stasis : ℕ

-- One turn of the loop: what the calls that it makes answer. `reads` is what each look at the audio
-- stream returns, and `looks` bounds how often the turn looks; `samples` is what was read.
pub record Turn : Type 0 where
  pub encodes_header : Bool
  pub looks : ℕ
  pub reads : ℕ → ℤ
  pub samples : List ℕ
  pub encrypts : Bool
  pub sends : Bool
  pub now : ℕ
  pub recv_count : ℕ

-- `RAWR_CALL_UDP_OVERHEAD_BYTES`
abbrev pub overhead_bytes : ℕ
overhead_bytes = 54

-- `rawr_Codec_FrameSize(rawr_CodecRate_48k, rawr_CodecTiming_20ms)`
abbrev pub packet_samples : ℕ
packet_samples = 960

-- `rtp_wait_ns`, a second.
abbrev pub wait_ns : ℕ
wait_ns = 1000000000

-- The thread's start: `now` is the time and `recv_count` the packets received.
pub start_sending : ℕ → ℕ → ℕ → Sender
start_sending rtp_time now recv_count = record {
  rtp_time = rtp_time;
  bytes_send = 0;
  send_total = 0;
  send_rate = 0;
  rtp_seq = 1024;
  tstamp_last = now;
  last_recv_count = recv_count;
  recv_stasis = 0;
}

-- What a turn ends in: a packet sent, the jump to `cleanup`, a stream that had no packet at any look,
-- or a failed assertion.
pub data TurnResult : Type 0 where
  sent : Sent → Sender → TurnResult
  broken : Sender → TurnResult
  sleeping : TurnResult
  aborted : TurnResult

-- `while ((sampleCount = rawr_AudioStream_Read(...)) == 0) mn_thread_sleep_ms(5);`
pub wait_for_samples : ℕ → (ℕ → ℤ) → ℕ → Option ℤ
wait_for_samples zero reads look = none
wait_for_samples (suc looks) reads look =
    let later = wait_for_samples looks reads (look + 1) in
    elim (reads look) [ pos zero ↦ later | count ↦ some count ]

-- The part after `udp_send`, once a second.
pub tick : ℕ → ℕ → Sender → Sender
tick now recv_count s =
    if ltb wait_ns (sub_size now s.tstamp_last)
    then record s {
      send_total = add_size s.send_total s.bytes_send;
      send_rate = s.bytes_send;
      tstamp_last = add_size s.tstamp_last wait_ns;
      bytes_send = 0;
      last_recv_count = recv_count;
      recv_stasis = if recv_count == s.last_recv_count then add_size s.recv_stasis 1 else 0;
    }
    else s

-- From the encoder's result on.
pub send_bytes : Turn → Header → Sender → ℤ → TurnResult
unfolding tick
send_bytes turn header s (negsuc n) = broken s
send_bytes turn header s (pos n) =
    let counted = record s { bytes_send = add_size (add_size s.bytes_send n) overhead_bytes } in
    if not turn.encrypts
    then broken counted
    else if not turn.sends
    then broken counted
    else sent (record { header = header; bytes = n }) (tick turn.now turn.recv_count counted)

pub send_samples : Opus → Codec → Turn → Header → Sender → TurnResult
unfolding send_bytes
send_samples opus encoder turn header s = elim (encode opus encoder turn.samples) [
  | aborts ↦ aborted
  | returns n ↦ send_bytes turn header s n
]

pub wait_and_send : Opus → Codec → Turn → Header → Sender → TurnResult
unfolding send_samples wait_for_samples
wait_and_send opus encoder turn header s = elim (wait_for_samples turn.looks turn.reads 0) [
  | none ↦ sleeping
  | some count ↦ if is_negative count then broken s else send_samples opus encoder turn header s
]

-- The variables after the header is made.
abbrev pub advanced : Sender → Sender
advanced s = record s {
  rtp_time = add_size s.rtp_time packet_samples;
  rtp_seq = u32 (s.rtp_seq + 1);
}

abbrev pub next_header : Bool → Sender → Header
next_header rtp_receiver s = record {
  marker = add_size s.rtp_time packet_samples == packet_samples;
  payload_type = if rtp_receiver then 0x66 else 0x74;
  seq = u16 s.rtp_seq;
  timestamp = u32 (add_size s.rtp_time packet_samples);
  ssrc = 0xdead1ee7;
}

pub turn_once : Opus → Codec → Bool → Sender → Turn → TurnResult
unfolding wait_and_send
turn_once opus encoder rtp_receiver s turn =
    if not turn.encodes_header
    then broken (advanced s)
    else wait_and_send opus encoder turn (next_header rtp_receiver s) (advanced s)

-- How the loop is left: the call is ending, or as a turn ends in.
pub data LoopEnd : Type 0 where
  exiting : Sender → LoopEnd
  error : Sender → LoopEnd
  asleep : LoopEnd
  process_ends : LoopEnd

pub send_packets : Opus → Codec → Bool → Sender → List Turn → List Sent × LoopEnd
unfolding turn_once
send_packets opus encoder rtp_receiver s [] = ([], exiting s)
send_packets opus encoder rtp_receiver s (turn ∷ turns) =
    elim (turn_once opus encoder rtp_receiver s turn) [
      | sent packet after ↦
          let rest = send_packets opus encoder rtp_receiver after turns in (packet ∷ rest.0, rest.1)
      | broken after ↦ ([], error after)
      | sleeping ↦ ([], asleep)
      | aborted ↦ ([], process_ends)
    ]

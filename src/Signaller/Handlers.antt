-- ===== src/Signaller/Handlers.antt =====
-- The handlers of src/signaller/main.cpp, which libre calls for the connections of the signalling
-- server. How libre reads a buffer is an argument. `aborts` is a read of a peer or a channel that is
-- not there, or is there no more.
use rawr.Common.{ℕ, ◌+◌, ◌%◌, Bool, true, not, List, [], ◌∷◌, ◌++◌, Option, none, some}
use rawr.Common.{ltb, leb, ◌==◌, if◌then◌else◌, Outcome, returns, aborts, length}
use rawr.Common.Maps.{adjust, set_insert}
use rawr.Signaller.{Server, Peer, Channel, PeerState, unset, no_channel, valid, sent_candidates}
use rawr.Signaller.{exchange, Text, text_dec, find_peer, find_channel, create_peer, create_channel}
use rawr.Signaller.{disconnect_peer, hash_from_sock_address}
use native.Mathlib.Decide.{ℕ_discrete}

-- What libre reads from a buffer: a byte and the rest of the bytes; the text of so many bytes up to
-- its first 0, or an error; and what is left when a number of so many bytes was read.
pub record Mbuf : Type 0 where
  pub read_u8 : List ℕ → ℕ × List ℕ
  pub read_str : List ℕ → ℕ → Option Text
  pub skip : ℕ → List ℕ → List ℕ

-- `MessageID`
abbrev pub channel_id_message : ℕ
channel_id_message = 1

abbrev pub channel_ready_message : ℕ
channel_ready_message = 2

abbrev pub peer_candidates_message : ℕ
peer_candidates_message = 3

abbrev pub mbuf_max_size : ℕ
mbuf_max_size = 1024

abbrev pub mbuf_min_size : ℕ
mbuf_min_size = 2

-- A change of a peer through its pointer.
abbrev pub change_peer : ℕ → (Peer → Peer) → Server → Server
change_peer id change server = record server { peers = adjust ℕ_discrete id change server.peers }

-- `tmr_start` of a peer's timer.
abbrev pub start_timer : ℕ → Server → Server
start_timer id server = change_peer id (λ peer. record peer { timer = true }) server

-- `tcp_send` to a peer.
abbrev pub tcp_send : ℕ → List ℕ → Server → Server
tcp_send id bytes server = record server { sent = server.sent ++ ((id, bytes) ∷ []) }

-- `close_handler`
unfoldable pub close_handler : ℕ → Server → Server
close_handler id server = elim (find_peer id server) [
  | none ↦ server
  | some peer ↦ disconnect_peer id server
]

-- `peer_timer_handler`
unfoldable pub peer_timer_handler : ℕ → Server → Server
peer_timer_handler id server = elim (find_peer id server) [
  | none ↦ server
  | some peer ↦ close_handler id server
]

-- `establish_handler`
unfoldable pub establish_handler : ℕ → Server → Server
establish_handler id server = elim (find_peer id server) [
  | none ↦ server
  | some peer ↦ start_timer id server
]

-- `connect_handler`, for a peer with this id; `accepts` says whether `tcp_accept` succeeds.
unfoldable pub connect_handler : ℕ → Bool → Server → Outcome Server
connect_handler id accepts server = elim (create_peer id server) [
  | none ↦ aborts
  | some created ↦
      if accepts
      then returns (change_peer id (λ peer. record peer { connected = true }) created)
      else returns (disconnect_peer id created)
]

-- A peer takes its place in a channel that has room.
abbrev pub seat : Text → Peer → Peer
seat channel_id peer = record peer { channel_id = channel_id; state = valid }

abbrev pub admit : ℕ → Channel → Channel
admit id channel = record channel { peers = set_insert id channel.peers }

abbrev pub admit_second : ℕ → Channel → Channel
admit_second id channel = record channel { state = exchange; peers = set_insert id channel.peers }

-- `ChannelReady` to each peer of the channel, with no test that the peer is there.
unfoldable pub send_ready : List ℕ → Server → Outcome Server
send_ready [] server = returns server
send_ready (id ∷ ids) server = elim (find_peer id server) [
  | none ↦ aborts
  | some peer ↦
      send_ready ids (tcp_send id (channel_ready_message ∷ 0 ∷ []) (start_timer id server))
]

-- The channel is made, and the peer is its first.
unfoldable pub open_channel : ℕ → Text → Server → Outcome Server
open_channel id name server = elim (create_channel name server) [
  | none ↦ aborts
  | some created ↦
      let admitted = record created {
        channels = adjust text_dec name (admit id) created.channels;
      } in
      returns (start_timer id (change_peer id (seat name) admitted))
]

-- The channel is there.
unfoldable pub enter_channel : ℕ → Text → Channel → Server → Outcome Server
unfolding send_ready
enter_channel id name channel server =
    let seated = change_peer id (seat channel.id) server in
    let admitted = record seated {
      channels = adjust text_dec name (admit_second id) seated.channels;
    } in
    let ready = send_ready (set_insert id channel.peers) admitted in
    if leb 2 (length channel.peers) then returns (close_handler id server) else ready

unfoldable pub join_channel : ℕ → Text → Server → Outcome Server
unfolding open_channel enter_channel
join_channel id [] server = returns (close_handler id server)
join_channel id (c ∷ cs) server = elim (find_channel (c ∷ cs) server) [
  | none ↦ open_channel id (c ∷ cs) server
  | some channel ↦ enter_channel id (c ∷ cs) channel server
]

-- The branch for `PeerState::NoChannel`. After a text that cannot be read the peer is closed, and
-- the next lines read it.
unfoldable pub recv_channel_id : Mbuf → List ℕ → ℕ → Server → Outcome Server
unfolding join_channel
recv_channel_id lib bytes id server =
    let (msg_id, after_id) = lib.read_u8 bytes in
    let (msg_len, after_len) = lib.read_u8 after_id in
    let joined : Outcome Server = elim (lib.read_str after_len msg_len) [
      | none ↦ aborts
      | some name ↦ join_channel id name server
    ] in
    if not (msg_id == channel_id_message)
    then returns (close_handler id server)
    else if msg_len == 0
    then returns (close_handler id server)
    else joined

-- The loop that sends a message on to the others of the channel: how many of them have sent
-- candidates before, or that one is missing.
pub data SendOn : Type 0 where
  passed : ℕ → Server → SendOn
  missing : Server → SendOn

abbrev pub has_sent : PeerState → ℕ
has_sent sent_candidates = 1
has_sent state = 0

unfoldable pub send_on : ℕ → List ℕ → List ℕ → ℕ → Server → SendOn
send_on id bytes [] count server = passed count server
send_on id bytes (q ∷ qs) count server =
    let skipped = send_on id bytes qs count server in
    let sent : SendOn = elim (find_peer q server) [
      | none ↦ missing server
      | some other ↦ send_on id bytes qs (count + has_sent other.state) (tcp_send q bytes server)
    ] in
    if q == id then skipped else sent

unfoldable pub start_timers : List ℕ → Server → Server
start_timers [] server = server
start_timers (id ∷ ids) server = start_timers ids (start_timer id server)

abbrev pub mark_sent : Peer → Peer
mark_sent peer = record peer { state = sent_candidates }

-- After the loop.
unfoldable pub end_exchange : ℕ → List ℕ → SendOn → Server
unfolding start_timers
end_exchange id members (missing server) = close_handler id server
end_exchange id members (passed count server) =
    let marked = change_peer id mark_sent server in
    if leb 2 (count + 1) then start_timers members marked else marked

-- The branch for `PeerState::Valid`. Without a channel the peer is closed, and what follows reads
-- it. The candidates are read for the log alone.
unfoldable pub recv_candidates : Mbuf → List ℕ → ℕ → Peer → Server → Outcome Server
unfolding send_on end_exchange
recv_candidates lib bytes id peer server = elim (find_channel peer.channel_id server) [
  | none ↦ aborts
  | some channel ↦
      let (msg_id, after_id) = lib.read_u8 bytes in
      let (msg_len, after_len) = lib.read_u8 after_id in
      if not (msg_id == peer_candidates_message)
      then returns (close_handler id server)
      else if not (msg_len % 6 == 0)
      then returns (close_handler id server)
      else returns (end_exchange id channel.peers (send_on id bytes channel.peers 0 server))
]

-- By the state that the peer is in.
unfoldable pub recv_in_state : PeerState → Mbuf → List ℕ → ℕ → Peer → Server → Outcome Server
unfolding recv_channel_id recv_candidates
recv_in_state unset lib bytes id peer server = returns (close_handler id server)
recv_in_state no_channel lib bytes id peer server = recv_channel_id lib bytes id server
recv_in_state valid lib bytes id peer server = recv_candidates lib bytes id peer server
recv_in_state sent_candidates lib bytes id peer server = returns server

-- `recv_handler`
unfoldable pub recv_handler : Mbuf → ℕ → List ℕ → Server → Outcome Server
unfolding recv_in_state
recv_handler lib id bytes server = elim (find_peer id server) [
  | none ↦ returns server
  | some peer ↦
      let timed = start_timer id server in
      if ltb (length bytes) mbuf_min_size
      then returns (close_handler id timed)
      else if leb mbuf_max_size (length bytes)
      then returns (close_handler id timed)
      else recv_in_state peer.state lib bytes id peer timed
]

-- What libre calls the server for.
pub data Event : Type 0 where
  connects : ℕ → ℕ → Bool → Event
  establishes : ℕ → Event
  receives : ℕ → List ℕ → Event
  closes : ℕ → Event
  times_out : ℕ → Event

unfoldable pub handle : Mbuf → Event → Server → Outcome Server
handle lib (connects port ip accepts) server =
    connect_handler (hash_from_sock_address port ip) accepts server
handle lib (establishes id) server = returns (establish_handler id server)
handle lib (receives id bytes) server = recv_handler lib id bytes server
handle lib (closes id) server = returns (close_handler id server)
handle lib (times_out id) server = returns (peer_timer_handler id server)

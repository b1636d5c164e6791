-- ===== src/Signaller.antt =====
-- src/signaller/PeerManager.cpp and the headers beside it: the peers that are connected to the
-- signalling server, and the channels in which they meet. A pointer to a peer or a channel is its key:
-- a change through it is a change of the entry.
pub mod Handlers
pub mod Seats
pub mod Leaving
pub mod Connecting
pub mod Joining
pub mod Naming
pub mod Exchange
pub mod Candidates
pub mod Serving
pub mod Ids
pub mod Examples
use rawr.Common.{ℕ, ◌+◌, ◌*◌, ◌^◌, ◌%◌, Bool, true, false, List, [], ◌∷◌, ◌++◌, map}
use rawr.Common.{Option, none, some, Outcome, returns, aborts, replicate, length}
use rawr.Common.Maps.{insert_new, erase_key, adjust, set_erase}
use rawr.Common.{◌≡◌, refl, ap₂}
use mathlib.Core.List.{lookup}
use native.Mathlib.Decide.{ℕ_discrete}

-- `PeerState`; `unset` is `PeerState::None`.
pub data PeerState : Type 0 where
  unset no_channel valid sent_candidates : PeerState

-- `ChannelState`
pub data ChannelState : Type 0 where
  no_state await_peer exchange complete : ChannelState

-- `SignalChannelId`, the characters of a C string.
abbrev pub Text : Type 0
Text = List ℕ

pub cons-eq : {a b : ℕ} {cs ds : Text} → a ∷ cs ≡ b ∷ ds → (a ≡ b) × (cs ≡ ds)
cons-eq e = (cc, cc)

-- Whether two texts are one; this computes, so that a server can be run.
unfoldable pub text_dec : Discrete Text
text_dec [] [] = yes refl
text_dec [] (b ∷ ds) = no (λ e. cc)
text_dec (a ∷ cs) [] = no (λ e. cc)
text_dec (a ∷ cs) (b ∷ ds) = elim (ℕ_discrete a b) [
  | yes p ↦ elim (text_dec cs ds) [ yes q ↦ yes (ap₂ ◌∷◌ p q) | no n ↦ no (λ e. n ((cons-eq e).1)) ]
  | no n ↦ no (λ e. n ((cons-eq e).0))
]

-- `SignalPeer`, less the address, which only log lines read: `connected` says whether `reConn` is
-- set, and `timer` whether `reTimer` runs.
pub record Peer : Type 0 where
  pub id : ℕ
  pub state : PeerState
  pub channel_id : Text
  pub connected : Bool
  pub timer : Bool

-- `SignalChannel`; `peers` is in the order of the set.
pub record Channel : Type 0 where
  pub id : Text
  pub state : ChannelState
  pub peers : List ℕ

-- The static members of `PeerManager`, and what was sent to whom, first to last.
pub record Server : Type 0 where
  pub peers : List (ℕ × Peer)
  pub channels : List (Text × Channel)
  pub sent : List (ℕ × List ℕ)

abbrev pub no_server : Server
no_server = record { peers = []; channels = []; sent = [] }

-- `hashFromSockAddress`, of a port and an IPv4 address.
unfoldable pub hash_from_sock_address : ℕ → ℕ → ℕ
hash_from_sock_address port ip = (port * 2 ^ 32 % 2 ^ 64 + ip) % 2 ^ 64

-- `PeerManager::Peer` and `PeerManager::Channel`
abbrev pub find_peer : ℕ → Server → Option Peer
find_peer id server = lookup ℕ_discrete id server.peers

abbrev pub find_channel : Text → Server → Option Channel
find_channel id server = lookup text_dec id server.channels

abbrev pub new_peer : ℕ → Peer
new_peer id = record {
  id = id;
  state = no_channel;
  channel_id = [];
  connected = false;
  timer = false;
}

-- `PeerManager::CreatePeer`. Where the id is taken, `insert` changes nothing, and the pointer that is
-- returned is to the new peer, which is gone: `none`.
unfoldable pub create_peer : ℕ → Server → Option Server
create_peer id server = elim (find_peer id server) [
  | none ↦ some (record server { peers = insert_new ℕ_discrete id (new_peer id) server.peers })
  | some peer ↦ none
]

-- `PeerManager::CreateChannel`; `none` is NULL, for an empty text.
unfoldable pub create_channel : Text → Server → Option Server
create_channel [] server = none
create_channel (c ∷ cs) server =
    let channel : Channel = record { id = c ∷ cs; state = await_peer; peers = [] } in
    some (record server { channels = insert_new text_dec (c ∷ cs) channel server.channels })

-- `PeerManager::CloseChannel`
unfoldable pub close_channel : Text → Server → Server
close_channel id server = record server { channels = erase_key text_dec id server.channels }

-- What `DisconnectPeer` does to the channel of the peer.
abbrev pub drop_peer : ℕ → Channel → Channel
drop_peer id channel = record channel { peers = set_erase id channel.peers }

unfoldable pub leave_channel : ℕ → Text → Server → Server
unfolding close_channel
leave_channel id channel_id server = elim (find_channel channel_id server) [
  | none ↦ server
  | some channel ↦ elim (set_erase id channel.peers) [
    | [] ↦
        close_channel channel.id
          (record server { channels = adjust text_dec channel_id (drop_peer id) server.channels })
    | q ∷ qs ↦ record server {
      channels = adjust text_dec channel_id (drop_peer id) server.channels;
    }
  ]
]

-- `PeerManager::DisconnectPeer`
unfoldable pub disconnect_peer : ℕ → Server → Server
unfolding leave_channel
disconnect_peer id server = elim (find_peer id server) [
  | none ↦ server
  | some peer ↦
      let left = leave_channel id peer.channel_id server in
      record left { peers = erase_key ℕ_discrete id left.peers }
]

disconnect_all : List ℕ → Server → Server
disconnect_all [] server = server
disconnect_all (id ∷ ids) server = disconnect_all ids (disconnect_peer id server)

-- `PeerManager::Shutdown`, whose vector has as many zeros as there are peers before their ids.
pub shutdown : Server → Server
unfolding disconnect_all
shutdown server =
    let ids = replicate (length server.peers) 0 ++ map (λ e. e.0) server.peers in
    record (disconnect_all ids server) { peers = []; channels = [] }

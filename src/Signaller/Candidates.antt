-- ===== src/Signaller/Candidates.antt =====
-- What the signalling server does with the candidates of a peer that has its seat in a channel.
use rawr.Common.{sym}
use rawr.Common.{ℕ, ◌≤◌, ◌<◌, ◌%◌, ◌≡◌, refl, ap, ◌∙◌, arith, true, false}
use rawr.Common.{List, [], ◌∷◌, ◌++◌, some, inl, inr, length, append-nil}
use rawr.Common.{Option-cases, Bool-cases, returns, leb, ltb, ◌==◌}
use rawr.Common.Maps.{set_erase}
use rawr.Signaller.{Server, Peer, Channel, valid, sent_candidates, Text}
use rawr.Signaller.{find_peer, find_channel, disconnect_peer, leave_channel, close_channel}
use rawr.Signaller.Handlers.{Mbuf, start_timer, send_on, end_exchange}
use rawr.Signaller.Handlers.{recv_candidates, close_handler, recv_handler}
use rawr.Signaller.Handlers.{recv_in_state}
use rawr.Signaller.Seats.{IsConsistent, start_timer-IsConsistent}
use mathlib.Core.Option.{some_inj}
use rawr.Signaller.Seats.{start_timer-Stays, Stays-trans}
use rawr.Signaller.Exchange.{IsPassedOn, end_exchange-IsPassedOn, to_each}

-- A message with the candidates of a peer, as libre reads it.
pub record IsCandidates (lib : Mbuf) (bytes : List ℕ) : Type 0 where
  pub large : 2 ≤ length bytes
  pub small : length bytes < 1024
  pub kind : (lib.read_u8 bytes).0 ≡ 3
  pub whole : (lib.read_u8 (lib.read_u8 bytes).1).0 % 6 ≡ 0

leave_channel-sent :
    (id : ℕ) (name : Text) (server : Server) → (leave_channel id name server).sent ≡ server.sent
unfolding leave_channel close_channel
leave_channel-sent id name server = ground arith

close_handler-sent : (id : ℕ) (server : Server) → (close_handler id server).sent ≡ server.sent
unfolding close_handler disconnect_peer
close_handler-sent id server = elim (Option-cases (find_peer id server)) [
  | inl gone ↦ rw (close_handler, gone) refl
  | inr (peer, found) ↦
      rw (close_handler, found, disconnect_peer, found)
        (leave_channel-sent id peer.channel_id server)
]

-- A message of a size that is let through.
pub recv_handler-sized :
    (lib : Mbuf) (id : ℕ) (bytes : List ℕ) (server : Server) (peer : Peer)
    → find_peer id server ≡ some peer
    → 2 ≤ length bytes
    → length bytes < 1024
    → recv_handler lib id bytes server
      ≡ recv_in_state peer.state lib bytes id peer (start_timer id server)
unfolding recv_handler
recv_handler-sized lib id bytes server peer found large small =
    let a : ltb (length bytes) 2 ≡ false = ground (arith, large) in
    let b : leb 1024 (length bytes) ≡ false = ground (arith, small) in
    rw (recv_handler, found, a, b) refl

pub recv_candidates-good :
    (lib : Mbuf) (id : ℕ) (bytes : List ℕ) (server : Server) (peer : Peer) (channel : Channel)
    → find_channel peer.channel_id server ≡ some channel
    → IsCandidates lib bytes
    → recv_candidates lib bytes id peer server
      ≡ returns (end_exchange id channel.peers (send_on id bytes channel.peers 0 server))
unfolding recv_candidates
recv_candidates-good lib id bytes server peer channel at good =
    let a : (lib.read_u8 bytes).0 == 3 ≡ true = ground (arith, good.kind) in
    let b : (lib.read_u8 (lib.read_u8 bytes).1).0 % 6 == 0 ≡ true = ground (arith, good.whole) in
    rw (recv_candidates, at, a, b) refl

module _ (lib : Mbuf) (id : ℕ) (bytes : List ℕ) (server : Server) (peer : Peer) (channel : Channel)
    (k : IsConsistent server) (found : find_peer id server ≡ some peer) (state : peer.state ≡ valid)
    (at : find_channel peer.channel_id server ≡ some channel) (good : IsCandidates lib bytes) where
  -- A peer of a consistent server, in a channel, sends its candidates for the first time. The message
  -- goes to every other peer of the channel, once and in the order of their ids, and to nobody else;
  -- the server is consistent again with the same channels, the peer is marked in its channel, and every
  -- other peer stays in its state and its channel.
  pub recv_handler-IsPassedOn :
      (after : Server) × (recv_handler lib id bytes server ≡ returns after)
      × IsPassedOn id bytes channel server after
  unfolding recv_in_state
  recv_handler-IsPassedOn =
      let timed = start_timer id server in
      let (timed_peer, found_timed, same_state, same_channel) =
        start_timer-Stays id id server peer found in
      let passed_on =
        end_exchange-IsPassedOn id bytes timed timed_peer channel
          (start_timer-IsConsistent server id k) found_timed (same_state ∙ state)
          (ap (λ name. find_channel name timed) same_channel ∙ at) in
      (
        _,
        recv_handler-sized lib id bytes server peer found good.large good.small
            ∙ ap (λ s. recv_in_state s lib bytes id peer timed) state
            ∙ recv_candidates-good lib id bytes timed peer channel at good,
        record {
          consistent = passed_on.consistent;
          to_others = passed_on.to_others;
          same_channels = passed_on.same_channels;
          marked =
              let (last, found_last, last_state, named, found_named, last_channel) =
                passed_on.marked in
              (
                last,
                found_last,
                last_state,
                peer,
                found,
                last_channel
                    ∙ ap (λ p. p.channel_id) (some_inj.0 (sym found_named ∙ found_timed))
                    ∙ same_channel,
              );
          others = λ q n.
              Stays-trans q server timed
                (end_exchange id channel.peers (send_on id bytes channel.peers 0 timed))
                (start_timer-Stays id q server) (passed_on.others q n);
        },
      )

-- A peer that has sent its candidates: nothing that it sends later is passed on.
recv_handler-ignored :
    (lib : Mbuf) (id : ℕ) (bytes : List ℕ) (server : Server) (peer : Peer)
    → find_peer id server ≡ some peer
    → peer.state ≡ sent_candidates
    → (after : Server) × (recv_handler lib id bytes server ≡ returns after)
      × (after.sent ≡ server.sent)
unfolding recv_handler recv_in_state
recv_handler-ignored lib id bytes server peer found state =
    let timed = start_timer id server in
    elim (Bool-cases (ltb (length bytes) 2)) [
      | inl small ↦ (
        close_handler id timed,
        rw (recv_handler, found, small) refl,
        close_handler-sent id timed,
      )
      | inr enough ↦ elim (Bool-cases (leb 1024 (length bytes))) [
        | inl large ↦ (
          close_handler id timed,
          rw (recv_handler, found, enough, large) refl,
          close_handler-sent id timed,
        )
        | inr fits ↦ (timed, rw (recv_handler, found, enough, fits, state) refl, refl)
      ]
    ]

set_erase_only : (id : ℕ) → set_erase id (id ∷ []) ≡ []
unfolding set_erase
set_erase_only id = ground arith

-- A peer of a consistent server that is alone in its channel sends its candidates for the first time.
-- They go to nobody, and the message that the peer sends next is not passed on either, whatever it is.
pub recv_handler-lost :
    (lib : Mbuf) (id : ℕ) (bytes later : List ℕ) (server : Server) (peer : Peer) (channel : Channel)
    → IsConsistent server
    → find_peer id server ≡ some peer
    → peer.state ≡ valid
    → find_channel peer.channel_id server ≡ some channel
    → channel.peers ≡ id ∷ []
    → IsCandidates lib bytes
    → (after : Server) × (recv_handler lib id bytes server ≡ returns after)
      × (after.sent ≡ server.sent)
      × (last : Server) × (recv_handler lib id later after ≡ returns last)
      × (last.sent ≡ server.sent)
recv_handler-lost lib id bytes later server peer channel k found state at alone good =
    let (after, e, passed_on) =
      recv_handler-IsPassedOn lib id bytes server peer channel k found state at good in
    let (marked, found', sent_state, _, _, _) = passed_on.marked in
    let nothing : after.sent ≡ server.sent =
      passed_on.to_others
      ∙ ap (λ ids. server.sent ++ to_each bytes (set_erase id ids)) alone
      ∙ ap (λ ids. server.sent ++ to_each bytes ids) (set_erase_only id)
      ∙ append-nil server.sent in
    let (last, e', ignored) = recv_handler-ignored lib id later after marked found' sent_state in
    (after, e, nothing, last, e', ignored ∙ nothing)

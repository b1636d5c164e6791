-- ===== src/Signaller/Connecting.antt =====
-- `PeerManager::DisconnectPeer` and `connect_handler`: both keep the server consistent, and nothing
-- is left of a peer that is disconnected.
use rawr.Common.{ℕ, ◌≡◌, ◌≢◌, refl, sym, ap, ◌∙◌, subst, arith, true, false}
use rawr.Common.{[], Bool, none, some, inl, inr, Option-cases}
use rawr.Common.Maps.{contains, erase_key}
use rawr.Common.Maps.{lookup-erase_key_self}
use rawr.Common.Maps.{lookup-erase_key_ne, insert_new, lookup-insert_new_self}
use rawr.Common.Maps.{lookup-insert_new_ne}
use rawr.Signaller.{Server, Peer, Channel, no_channel, Text, find_peer, find_channel}
use rawr.Signaller.{leave_channel, disconnect_peer, new_peer, create_peer}
use rawr.Signaller.Seats.{seat_of, seat_by, IsKnown, IsConsistent, peers-IsConsistent}
use rawr.Signaller.Seats.{Moves-IsConsistent}
use rawr.Common.{Bool-cases, returns}
use rawr.Signaller.Handlers.{connect_handler}
use rawr.Signaller.Seats.{change_peer-IsConsistent}
use mathlib.Core.List.{lookup}
use mathlib.Core.Option.{some_inj}
use native.Mathlib.Decide.{ℕ_discrete}
use rawr.Signaller.Leaving.{leave_channel-peers, leave_channel-absent, disconnect_peer-found}
use rawr.Signaller.Leaving.{disconnect_peer-absent, disconnect-Moves}

-- A peer that has named no channel goes.
disconnect-unseated :
    (id : ℕ) (server : Server) (peer : Peer)
    → IsConsistent server
    → find_peer id server ≡ some peer
    → peer.state ≡ no_channel
    → peer.channel_id ≡ []
    → disconnect_peer id server ≡ record server { peers = erase_key ℕ_discrete id server.peers }
disconnect-unseated id server peer k found state unnamed =
    let no_such : find_channel [] server ≡ none = elim (Option-cases (find_channel [] server)) [
      | inl gone ↦ gone
      | inr (channel, there) ↦ absurd (omega (arith, (k.room [] channel there).3))
    ] in
    disconnect_peer-found id server peer found
    ∙ ap {A = Server} {B = Server} (λ s. record s { peers = erase_key ℕ_discrete id s.peers })
        (ap (λ name. leave_channel id name server) unnamed
          ∙ leave_channel-absent id [] server no_such)

erase_peer-IsConsistent :
    (id : ℕ) (server : Server) (peer : Peer)
    → IsConsistent server
    → find_peer id server ≡ some peer
    → peer.state ≡ no_channel
    → IsConsistent (record server { peers = erase_key ℕ_discrete id server.peers })
erase_peer-IsConsistent id server peer k found state =
    peers-IsConsistent server _ k
      (λ q. elim (ℕ_discrete q id) [
        | yes e ↦
            ap (λ p. seat_of (lookup ℕ_discrete p (erase_key ℕ_discrete id server.peers))) e
            ∙ ap seat_of (lookup-erase_key_self ℕ_discrete id server.peers)
            ∙ ap (λ s. seat_by s peer.channel_id) (sym state)
            ∙ ap seat_of (sym found)
            ∙ ap (λ p. seat_of (find_peer p server)) (sym e)
        | no n ↦ ap seat_of (lookup-erase_key_ne ℕ_discrete id q server.peers n)
      ])
      (λ q other at. elim (ℕ_discrete q id) [
        | yes e ↦
            let f : none ≡ some other =
              sym (lookup-erase_key_self ℕ_discrete id server.peers)
              ∙ ap (λ p. lookup ℕ_discrete p (erase_key ℕ_discrete id server.peers)) (sym e)
              ∙ at in
            absurd (cc)
        | no n ↦ k.known q other (sym (lookup-erase_key_ne ℕ_discrete id q server.peers n) ∙ at)
      ])

pub disconnect-IsConsistent :
    (id : ℕ) (server : Server) → IsConsistent server → IsConsistent (disconnect_peer id server)
disconnect-IsConsistent id server k = elim (Option-cases (find_peer id server)) [
  | inl gone ↦ subst IsConsistent (sym (disconnect_peer-absent id server gone)) k
  | inr (peer, found) ↦ elim ((k.known id peer found).1) [
    | inl (state, unnamed) ↦
        subst IsConsistent (sym (disconnect-unseated id server peer k found state unnamed))
          (erase_peer-IsConsistent id server peer k found state)
    | inr seated ↦
        Moves-IsConsistent server _ id peer.channel_id k
          (disconnect-Moves id server peer k found seated)
  ]
]

-- A consistent server without a peer: the peer is not found, no channel lists it, and every other
-- peer is as it was.
pub record IsLeft (id : ℕ) (before after : Server) : Type 0 where
  pub consistent : IsConsistent after
  pub gone : find_peer id after ≡ none
  pub others : (q : ℕ) → q ≢ id → find_peer q after ≡ find_peer q before
  pub unlisted :
      (name : Text) (channel : Channel)
      → find_channel name after ≡ some channel
      → contains id channel.peers ≡ false

disconnect-peers :
    (id : ℕ) (server : Server) (peer : Peer)
    → IsConsistent server
    → find_peer id server ≡ some peer
    → (disconnect_peer id server).peers ≡ erase_key ℕ_discrete id server.peers
disconnect-peers id server peer k found = elim ((k.known id peer found).1) [
  | inl (state, unnamed) ↦
      ap (λ s. s.peers) (disconnect-unseated id server peer k found state unnamed)
  | inr seated ↦
      let (channel, at, is_in) = k.listed peer.channel_id id (ap seat_of found ∙ seated) in
      ap (λ s. s.peers) (disconnect_peer-found id server peer found)
      ∙ ap (erase_key ℕ_discrete id) (
          leave_channel-peers id peer.channel_id server channel at
            (k.room peer.channel_id channel at).0 _ refl)
]

-- Disconnecting a peer of a consistent server takes it away from the peers and from its channel, and
-- changes no other peer; the server is consistent again, so that a channel that would be empty is
-- closed.
disconnect_peer-IsLeft :
    (id : ℕ) (server : Server) (peer : Peer)
    → IsConsistent server
    → find_peer id server ≡ some peer
    → IsLeft id server (disconnect_peer id server)
disconnect_peer-IsLeft id server peer k found =
    let after = disconnect_peer id server in
    let peers_eq = disconnect-peers id server peer k found in
    let k' = disconnect-IsConsistent id server k in
    let gone : find_peer id after ≡ none =
      ap (lookup ℕ_discrete id) peers_eq ∙ lookup-erase_key_self ℕ_discrete id server.peers in
    record {
      consistent = k';
      gone = gone;
      others = λ q n.
          ap (lookup ℕ_discrete q) peers_eq ∙ lookup-erase_key_ne ℕ_discrete id q server.peers n;
      unlisted = λ name channel at. elim (Bool-cases (contains id channel.peers)) [
        | inr out ↦ out
        | inl is_in ↦
            let f : none ≡ some name = ap seat_of (sym gone) ∙ k'.seated name channel id at is_in in
            absurd (cc)
      ];
    }

create_peer-fresh :
    (id : ℕ) (server : Server)
    → find_peer id server ≡ none
    → create_peer id server
      ≡ some (record server { peers = insert_new ℕ_discrete id (new_peer id) server.peers })
unfolding create_peer
create_peer-fresh id server fresh = rw (create_peer, fresh) refl

created-IsConsistent :
    (id : ℕ) (server : Server)
    → IsConsistent server
    → find_peer id server ≡ none
    → IsConsistent (record server { peers = insert_new ℕ_discrete id (new_peer id) server.peers })
created-IsConsistent id server k fresh =
    let here = lookup-insert_new_self ℕ_discrete id (new_peer id) server.peers fresh in
    peers-IsConsistent server _ k
      (λ q. elim (ℕ_discrete q id) [
        | yes e ↦
            ap
              (λ p.
                seat_of (lookup ℕ_discrete p (insert_new ℕ_discrete id (new_peer id) server.peers)))
              e
            ∙ ap seat_of here
            ∙ ap seat_of (sym fresh)
            ∙ ap (λ p. seat_of (find_peer p server)) (sym e)
        | no n ↦ ap seat_of (lookup-insert_new_ne ℕ_discrete id q (new_peer id) server.peers n)
      ])
      (λ q other at. elim (ℕ_discrete q id) [
        | yes e ↦
            let f : new_peer id ≡ other = some_inj.0 (
              sym here
              ∙ ap (λ p. lookup ℕ_discrete p (insert_new ℕ_discrete id (new_peer id) server.peers))
                  (sym e)
              ∙ at) in
            subst (λ p. IsKnown p other) (sym e) (subst (IsKnown id) f (refl, inl (refl, refl)))
        | no n ↦
            k.known q other
              (sym (lookup-insert_new_ne ℕ_discrete id q (new_peer id) server.peers n) ∙ at)
      ])

-- A connection under an id that no peer has.
pub connect_handler-returns :
    (id : ℕ) (accepts : Bool) (server : Server)
    → IsConsistent server
    → find_peer id server ≡ none
    → (after : Server) × (connect_handler id accepts server ≡ returns after) × IsConsistent after
unfolding connect_handler
connect_handler-returns id true server k fresh =
    let k' = created-IsConsistent id server k fresh in
    (
      _,
      rw (connect_handler, create_peer-fresh id server fresh) refl,
      change_peer-IsConsistent _ id (new_peer id) (λ peer. record peer { connected = true }) k'
          (lookup-insert_new_self ℕ_discrete id (new_peer id) server.peers fresh) refl
          (refl, inl (refl, refl)),
    )
connect_handler-returns id false server k fresh =
    let k' = created-IsConsistent id server k fresh in
    (
      _,
      rw (connect_handler, create_peer-fresh id server fresh) refl,
      disconnect-IsConsistent id _ k',
    )

-- ===== src/Signaller/Seats.antt =====
-- When the peers and the channels of the signalling server agree, and the changes that keep it so.
use rawr.Common.{ℕ, ◌≤◌, ◌<◌, ◌≡◌, ◌≢◌, refl, sym, ap, ◌∙◌, subst, true, List, []}
use rawr.Common.{Option, none, some, ◌⊎◌, inl, inr, length, Option-cases}
use rawr.Common.Maps.{contains, lookup-adjust_self, lookup-adjust_ne, adjust_absent}
use rawr.Signaller.{Server, Peer, Channel, PeerState, unset, no_channel, valid, sent_candidates}
use rawr.Signaller.{Text, text_dec, find_peer, find_channel}
use rawr.Signaller.Handlers.{change_peer, start_timer}
use mathlib.Core.List.{lookup}
use native.Mathlib.Decide.{ℕ_discrete}

-- The channel in which a peer has its seat.
abbrev pub seat_by : PeerState → Text → Option Text
seat_by unset channel_id = none
seat_by no_channel channel_id = none
seat_by valid channel_id = some channel_id
seat_by sent_candidates channel_id = some channel_id

abbrev pub seat_of : Option Peer → Option Text
seat_of none = none
seat_of (some peer) = seat_by peer.state peer.channel_id

-- A channel under its name: one or two peers.
abbrev pub IsRoom : Text → Channel → Type 0
IsRoom name channel =
    (channel.id ≡ name)
    × (0 < length channel.peers)
    × (length channel.peers ≤ 2)
    × (0 < length name)

-- A peer under its id: it has named no channel yet, or it has its seat in the one that it named.
abbrev pub IsKnown : ℕ → Peer → Type 0
IsKnown id peer =
    (peer.id ≡ id)
    × (((peer.state ≡ no_channel) × (peer.channel_id ≡ []))
        ⊎ (seat_by peer.state peer.channel_id ≡ some peer.channel_id))

-- The peers that a channel lists are those that have their seat in it.
pub record IsConsistent (server : Server) : Type 0 where
  pub seated :
      (name : Text) (channel : Channel) (id : ℕ)
      → find_channel name server ≡ some channel
      → contains id channel.peers ≡ true
      → seat_of (find_peer id server) ≡ some name
  pub listed :
      (name : Text) (id : ℕ)
      → seat_of (find_peer id server) ≡ some name
      → (channel : Channel) × (find_channel name server ≡ some channel)
        × (contains id channel.peers ≡ true)
  pub room :
      (name : Text) (channel : Channel)
      → find_channel name server ≡ some channel
      → IsRoom name channel
  pub known : (id : ℕ) (peer : Peer) → find_peer id server ≡ some peer → IsKnown id peer

-- Other peers in the same seats.
pub peers-IsConsistent :
    (server : Server) (peers : List (ℕ × Peer))
    → IsConsistent server
    → ((id : ℕ) → seat_of (lookup ℕ_discrete id peers) ≡ seat_of (find_peer id server))
    → ((id : ℕ) (peer : Peer) → lookup ℕ_discrete id peers ≡ some peer → IsKnown id peer)
    → IsConsistent (record server { peers = peers })
peers-IsConsistent server peers k same known = record {
  seated = λ name channel id found is_in. same id ∙ k.seated name channel id found is_in;
  listed = λ name id sits. k.listed name id (sym (same id) ∙ sits);
  room = k.room;
  known = known;
}

-- A peer changed in its seat.
pub change_peer-IsConsistent :
    (server : Server) (id : ℕ) (peer : Peer) (change : Peer → Peer)
    → IsConsistent server
    → find_peer id server ≡ some peer
    → seat_of (some (change peer)) ≡ seat_of (some peer)
    → IsKnown id (change peer)
    → IsConsistent (change_peer id change server)
change_peer-IsConsistent server id peer change k found same known =
    let here = lookup-adjust_self ℕ_discrete id change peer server.peers found in
    peers-IsConsistent server _ k
      (λ q. elim (ℕ_discrete q id) [
        | yes e ↦
            ap (λ p. seat_of (find_peer p (change_peer id change server))) e
            ∙ ap seat_of here
            ∙ same
            ∙ ap seat_of (sym found)
            ∙ ap (λ p. seat_of (find_peer p server)) (sym e)
        | no n ↦ ap seat_of (lookup-adjust_ne ℕ_discrete id q change server.peers n)
      ])
      (λ q other at. elim (ℕ_discrete q id) [
        | yes e ↦
            let same_peer : some (change peer) ≡ some other =
              sym here ∙ ap (λ p. find_peer p (change_peer id change server)) (sym e) ∙ at in
            subst (λ p. IsKnown p other) (sym e)
              (subst (λ o. elim o [ none ↦ Unit {0} | some x ↦ IsKnown id x ]) same_peer known)
        | no n ↦ k.known q other (sym (lookup-adjust_ne ℕ_discrete id q change server.peers n) ∙ at)
      ])

pub start_timer-IsConsistent :
    (server : Server) (id : ℕ) → IsConsistent server → IsConsistent (start_timer id server)
start_timer-IsConsistent server id k = elim (Option-cases (find_peer id server)) [
  | inl gone ↦
      subst (λ peers. IsConsistent (record server { peers = peers }))
        (sym (adjust_absent ℕ_discrete id (λ p. record p { timer = true }) server.peers gone)) k
  | inr (peer, found) ↦
      change_peer-IsConsistent server id peer _ k found refl (k.known id peer found)
]

-- A peer that is there stays, in its state and with its channel.
abbrev pub Stays : ℕ → Server → Server → Type 0
Stays id before after =
    (peer : Peer)
    → find_peer id before ≡ some peer
    → (other : Peer) × (find_peer id after ≡ some other)
      × (other.state ≡ peer.state)
      × (other.channel_id ≡ peer.channel_id)

pub Stays-trans : (id : ℕ) (a b c : Server) → Stays id a b → Stays id b c → Stays id a c
Stays-trans id a b c first second peer found =
    let (mid, found_mid, state, channel) = first peer found in
    let (other, found_other, state', channel') = second mid found_mid in
    (other, found_other, state' ∙ state, channel' ∙ channel)

pub Stays-of_eq :
    (id : ℕ) (before after : Server)
    → find_peer id after ≡ find_peer id before
    → Stays id before after
Stays-of_eq id before after e peer found = (peer, e ∙ found, refl, refl)

-- A change of a peer that keeps its state and its channel.
pub start_timer-Stays : (id q : ℕ) (server : Server) → Stays q server (start_timer id server)
start_timer-Stays id q server peer found = elim (ℕ_discrete q id) [
  | yes e ↦ (
    record peer { timer = true },
    ap (λ p. find_peer p (start_timer id server)) e
        ∙ lookup-adjust_self ℕ_discrete id (λ p. record p { timer = true }) peer server.peers
            (ap (λ p. find_peer p server) (sym e) ∙ found),
    refl,
    refl,
  )
  | no n ↦ (
    peer,
    lookup-adjust_ne ℕ_discrete id q (λ p. record p { timer = true }) server.peers n ∙ found,
    refl,
    refl,
  )
]

-- One peer that has or had its seat in one channel, while all else stays.
pub record Moves (before after : Server) (id : ℕ) (name : Text) : Type 0 where
  pub other_channels :
      (other : Text) → other ≢ name → find_channel other after ≡ find_channel other before
  pub other_peers : (q : ℕ) → q ≢ id → find_peer q after ≡ find_peer q before
  pub comes_from : (other : Text) → seat_of (find_peer id before) ≡ some other → other ≡ name
  pub room : (channel : Channel) → find_channel name after ≡ some channel → IsRoom name channel
  pub others_seated :
      (channel : Channel) (q : ℕ)
      → find_channel name after ≡ some channel
      → q ≢ id
      → contains q channel.peers ≡ true
      → seat_of (find_peer q before) ≡ some name
  pub seated :
      (channel : Channel)
      → find_channel name after ≡ some channel
      → contains id channel.peers ≡ true
      → seat_of (find_peer id after) ≡ some name
  pub others_listed :
      (q : ℕ)
      → q ≢ id
      → seat_of (find_peer q before) ≡ some name
      → (channel : Channel) × (find_channel name after ≡ some channel)
        × (contains q channel.peers ≡ true)
  pub listed :
      (other : Text)
      → seat_of (find_peer id after) ≡ some other
      → (channel : Channel) × (find_channel other after ≡ some channel)
        × (contains id channel.peers ≡ true)
  pub known : (peer : Peer) → find_peer id after ≡ some peer → IsKnown id peer

pub Moves-IsConsistent :
    (before after : Server) (id : ℕ) (name : Text)
    → IsConsistent before
    → Moves before after id name
    → IsConsistent after
Moves-IsConsistent before after id name k m = record {
  seated = λ other channel q found is_in. elim (ℕ_discrete q id) [
    | yes me ↦
        let is_in' : contains id channel.peers ≡ true =
          subst (λ p. contains p channel.peers ≡ true) me is_in in
        subst (λ p. seat_of (find_peer p after) ≡ some other) (sym me)
          (elim (text_dec other name) [
            | yes e ↦
                m.seated channel (ap (λ t. find_channel t after) (sym e) ∙ found) is_in'
                ∙ ap some (sym e)
            | no n ↦ absurd (
                n (
                  m.comes_from other
                    (k.seated other channel id (sym (m.other_channels other n) ∙ found) is_in')))
          ])
    | no q_ne ↦ ap seat_of (m.other_peers q q_ne) ∙ elim (text_dec other name) [
      | yes e ↦
          m.others_seated channel q (ap (λ t. find_channel t after) (sym e) ∙ found) q_ne is_in
          ∙ ap some (sym e)
      | no n ↦ k.seated other channel q (sym (m.other_channels other n) ∙ found) is_in
    ]
  ];
  listed = λ other q sits. elim (ℕ_discrete q id) [
    | yes me ↦
        let r = m.listed other (ap (λ p. seat_of (find_peer p after)) (sym me) ∙ sits) in
        (r.0, r.1, subst (λ p. contains p r.0.peers ≡ true) (sym me) r.2)
    | no q_ne ↦
        let sat : seat_of (find_peer q before) ≡ some other =
          ap seat_of (sym (m.other_peers q q_ne)) ∙ sits in
        elim (text_dec other name) [
          | yes e ↦
              let r = m.others_listed q q_ne (sat ∙ ap some e) in
              (r.0, ap (λ t. find_channel t after) e ∙ r.1, r.2)
          | no n ↦ let r = k.listed other q sat in (r.0, m.other_channels other n ∙ r.1, r.2)
        ]
  ];
  room = λ other channel found. elim (text_dec other name) [
    | yes e ↦
        subst (λ t. IsRoom t channel) (sym e)
          (m.room channel (ap (λ t. find_channel t after) (sym e) ∙ found))
    | no n ↦ k.room other channel (sym (m.other_channels other n) ∙ found)
  ];
  known = λ q peer found. elim (ℕ_discrete q id) [
    | yes me ↦
        subst (λ p. IsKnown p peer) (sym me)
          (m.known peer (ap (λ p. find_peer p after) (sym me) ∙ found))
    | no q_ne ↦ k.known q peer (sym (m.other_peers q q_ne) ∙ found)
  ];
}

-- ===== src/Signaller/Serving.antt =====
-- The signalling server goes on, whatever its clients send and in whatever order: no handler reads a
-- peer or a channel that is not there.
use rawr.Common.{ℕ, ◌%◌, ◌≡◌, refl, sym, ap, ◌∙◌, subst}
use rawr.Common.{List, [], ◌∷◌, none, some, inl, inr, length}
use rawr.Common.{Option-cases, Bool-cases, Outcome, returns, leb, ltb, ◌==◌}
use rawr.Signaller.{Server, Peer, PeerState, unset, no_channel, valid, sent_candidates, Text}
use rawr.Signaller.{find_peer, find_channel, no_server, hash_from_sock_address}
use rawr.Signaller.Handlers.{Mbuf, start_timer, close_handler, join_channel, recv_channel_id}
use rawr.Signaller.Handlers.{recv_candidates, recv_in_state, recv_handler, establish_handler}
use rawr.Signaller.Handlers.{peer_timer_handler, Event, connects, establishes, receives, closes}
use rawr.Signaller.Handlers.{times_out, handle}
use rawr.Signaller.Seats.{seat_of, seat_by, IsConsistent, start_timer-IsConsistent}
use rawr.Signaller.Connecting.{disconnect-IsConsistent, connect_handler-returns}
use rawr.Signaller.Naming.{join_channel-Joined}
use rawr.Signaller.Seats.{start_timer-Stays}
use rawr.Signaller.Exchange.{end_exchange-IsPassedOn}
use mathlib.Core.List.{lookup}

-- libre reads a text without an error where there is a buffer, however short it is.
abbrev pub ReadsTexts : Mbuf → Type 0
ReadsTexts lib = (bytes : List ℕ) (n : ℕ) → (text : Text) × (lib.read_str bytes n ≡ some text)

-- No peer is connected under the id of a new connection.
abbrev pub CanHappen : Event → Server → Type 0
CanHappen (connects port ip accepts) server =
    find_peer (hash_from_sock_address port ip) server ≡ none
CanHappen event server = Unit {0}

-- A call that returns with a consistent server.
abbrev pub GoesOn : Outcome Server → Type 0
GoesOn outcome = (after : Server) × (outcome ≡ returns after) × IsConsistent after

pub close_handler-IsConsistent :
    (id : ℕ) (server : Server) → IsConsistent server → IsConsistent (close_handler id server)
unfolding close_handler
close_handler-IsConsistent id server k = elim (Option-cases (find_peer id server)) [
  | inl gone ↦ rw (close_handler, gone) k
  | inr (peer, found) ↦ rw (close_handler, found) (disconnect-IsConsistent id server k)
]

closing-GoesOn :
    (id : ℕ) (server : Server) → IsConsistent server → GoesOn (returns (close_handler id server))
closing-GoesOn id server k = (close_handler id server, refl, close_handler-IsConsistent id server k)

module _ (lib : Mbuf) (reads : ReadsTexts lib) (id : ℕ) where
  join_channel-GoesOn :
      (name : Text) (server : Server) (peer : Peer)
      → IsConsistent server
      → find_peer id server ≡ some peer
      → peer.state ≡ no_channel
      → GoesOn (join_channel id name server)
  unfolding join_channel
  join_channel-GoesOn [] server peer k found state = closing-GoesOn id server k
  join_channel-GoesOn (c ∷ cs) server peer k found state =
      let (after, e, consistent, joined) = join_channel-Joined id c cs server peer k found state in
      (after, e, consistent)

  recv_channel_id-GoesOn :
      (bytes : List ℕ) (server : Server) (peer : Peer)
      → IsConsistent server
      → find_peer id server ≡ some peer
      → peer.state ≡ no_channel
      → GoesOn (recv_channel_id lib bytes id server)
  unfolding recv_channel_id
  recv_channel_id-GoesOn bytes server peer k found state =
      let closed = closing-GoesOn id server k in
      let len = (lib.read_u8 (lib.read_u8 bytes).1).0 in
      let (name, read) = reads (lib.read_u8 (lib.read_u8 bytes).1).1 len in
      elim (Bool-cases ((lib.read_u8 bytes).0 == 1)) [
        | inr other ↦ rw (recv_channel_id, other) closed
        | inl kind ↦ elim (Bool-cases (len == 0)) [
          | inl empty ↦ rw (recv_channel_id, kind, empty) closed
          | inr long ↦
              rw (recv_channel_id, kind, long, read)
                (join_channel-GoesOn name server peer k found state)
        ]
      ]

  recv_candidates-GoesOn :
      (bytes : List ℕ) (server : Server) (peer seated : Peer)
      → IsConsistent server
      → find_peer id server ≡ some seated
      → seated.state ≡ valid
      → seated.channel_id ≡ peer.channel_id
      → GoesOn (recv_candidates lib bytes id peer server)
  unfolding recv_candidates
  recv_candidates-GoesOn bytes server peer seated k found state same =
      let closed = closing-GoesOn id server k in
      let len = (lib.read_u8 (lib.read_u8 bytes).1).0 in
      let (channel, at, is_in) =
        k.listed seated.channel_id id
          (ap seat_of found ∙ ap (λ s. seat_by s seated.channel_id) state) in
      let at_peer = ap (λ name. find_channel name server) (sym same) ∙ at in
      elim (Bool-cases ((lib.read_u8 bytes).0 == 3)) [
        | inr other ↦ rw (recv_candidates, at_peer, other) closed
        | inl kind ↦ elim (Bool-cases (len % 6 == 0)) [
          | inr ragged ↦ rw (recv_candidates, at_peer, kind, ragged) closed
          | inl whole ↦
              rw (recv_candidates, at_peer, kind, whole)
                (
                  _,
                  refl,
                  (end_exchange-IsPassedOn id bytes server seated channel k found state
                      at).consistent,
                )
        ]
      ]

  recv_in_state-GoesOn :
      (state : PeerState) (bytes : List ℕ) (server : Server) (peer now : Peer)
      → IsConsistent server
      → find_peer id server ≡ some now
      → now.state ≡ state
      → now.channel_id ≡ peer.channel_id
      → GoesOn (recv_in_state state lib bytes id peer server)
  unfolding recv_in_state
  recv_in_state-GoesOn unset bytes server peer now k found state same = closing-GoesOn id server k
  recv_in_state-GoesOn no_channel bytes server peer now k found state same =
      recv_channel_id-GoesOn bytes server now k found state
  recv_in_state-GoesOn valid bytes server peer now k found state same =
      recv_candidates-GoesOn bytes server peer now k found state same
  recv_in_state-GoesOn sent_candidates bytes server peer now k found state same = (server, refl, k)

  recv_handler-GoesOn :
      (bytes : List ℕ) (server : Server)
      → IsConsistent server
      → GoesOn (recv_handler lib id bytes server)
  unfolding recv_handler
  recv_handler-GoesOn bytes server k = elim (Option-cases (find_peer id server)) [
    | inl gone ↦ rw (recv_handler, gone) (server, refl, k)
    | inr (peer, found) ↦
        let timed = start_timer id server in
        let k' = start_timer-IsConsistent server id k in
        let closed = closing-GoesOn id timed k' in
        let (now, found', state, same) = start_timer-Stays id id server peer found in
        elim (Bool-cases (ltb (length bytes) 2)) [
          | inl small ↦ rw (recv_handler, found, small) closed
          | inr enough ↦ elim (Bool-cases (leb 1024 (length bytes))) [
            | inl large ↦ rw (recv_handler, found, enough, large) closed
            | inr fits ↦
                rw (recv_handler, found, enough, fits)
                  (recv_in_state-GoesOn peer.state bytes timed peer now k' found' state same)
          ]
        ]
  ]

handle-GoesOn :
    (lib : Mbuf) (event : Event) (server : Server)
    → ReadsTexts lib
    → CanHappen event server
    → IsConsistent server
    → GoesOn (handle lib event server)
unfolding handle establish_handler peer_timer_handler
handle-GoesOn lib (connects port ip accepts) server reads fresh k =
    connect_handler-returns (hash_from_sock_address port ip) accepts server k fresh
handle-GoesOn lib (establishes id) server reads fresh k =
    elim (Option-cases (find_peer id server)) [
      | inl gone ↦ (server, rw (establish_handler, gone) refl, k)
      | inr (peer, found) ↦ (
        start_timer id server,
        rw (establish_handler, found) refl,
        start_timer-IsConsistent server id k,
      )
    ]
handle-GoesOn lib (receives id bytes) server reads fresh k =
    recv_handler-GoesOn lib reads id bytes server k
handle-GoesOn lib (closes id) server reads fresh k = closing-GoesOn id server k
handle-GoesOn lib (times_out id) server reads fresh k = elim (Option-cases (find_peer id server)) [
  | inl gone ↦ (server, rw (peer_timer_handler, gone) refl, k)
  | inr (peer, found) ↦ (
    close_handler id server,
    rw (peer_timer_handler, found) refl,
    close_handler-IsConsistent id server k,
  )
]

-- What the server can come to, from its start.
pub data Served (lib : Mbuf) : Server → Type 0 where
  starts : Served lib no_server
  serves :
      {before after : Server} (event : Event)
      → Served lib before
      → CanHappen event before
      → handle lib event before ≡ returns after
      → Served lib after

no_server-IsConsistent : IsConsistent no_server
unfolding lookup
no_server-IsConsistent = record {
  seated = λ name channel id found is_in. absurd (cc);
  listed = λ name id sits. absurd (cc);
  room = λ name channel found. absurd (cc);
  known = λ id peer found. absurd (cc);
}

Served-IsConsistent :
    {lib : Mbuf} {server : Server} → ReadsTexts lib → Served lib server → IsConsistent server
Served-IsConsistent reads starts = no_server-IsConsistent
Served-IsConsistent {lib} reads (serves {before} event served can e) =
    let (after, e', k) =
      handle-GoesOn lib event before reads can (Served-IsConsistent reads served) in
    subst IsConsistent (returns_inj (sym e' ∙ e)) k
  where
    returns_inj : {a b : Server} → returns a ≡ returns b → a ≡ b
    returns_inj p = cc

-- Where libre reads texts without errors: after any events from the start on, in any order and with
-- any messages, the server is consistent, and the next event is handled to the end and leaves a
-- consistent server. No connection comes from an address that is connected. A consistent server is
-- one where the peers that a channel lists are those that have their seat in it, where each channel
-- has one or two peers, and where each other peer has named none.
pub Served-goes_on :
    (lib : Mbuf) (event : Event) (server : Server)
    → ReadsTexts lib
    → Served lib server
    → CanHappen event server
    → IsConsistent server
      × (after : Server) × (handle lib event server ≡ returns after)
      × IsConsistent after
Served-goes_on lib event server reads served can =
    let k = Served-IsConsistent reads served in
    let (after, e, k') = handle-GoesOn lib event server reads can k in (k, after, e, k')

-- ===== src/Signaller/Naming.antt =====
-- A peer of the signalling server names a channel: it opens it, enters it, or is refused.
use rawr.Common.{ℕ, ◌≤◌, ◌<◌, ◌≡◌, ◌≢◌, refl, sym, ap, ◌∙◌, subst, arith, true, false}
use rawr.Common.{List, [], ◌∷◌, ◌++◌, none, some, inl, inr, length, map}
use rawr.Common.{Option-cases, Bool-cases, returns, leb}
use rawr.Common.Maps.{contains, set_insert, contains-set_insert, length-set_insert, adjust}
use rawr.Common.Maps.{lookup-adjust_self, lookup-adjust_ne, insert_new, lookup-insert_new_self}
use rawr.Common.Maps.{lookup-insert_new_ne}
use rawr.Signaller.{Server, Peer, Channel, no_channel, await_peer, Text, text_dec, find_peer}
use rawr.Signaller.{find_channel, create_channel, disconnect_peer}
use rawr.Signaller.Handlers.{start_timer, seat, admit, admit_second}
use rawr.Signaller.Handlers.{open_channel, enter_channel, join_channel, close_handler}
use rawr.Signaller.Seats.{IsConsistent}
use rawr.Signaller.Seats.{Moves-IsConsistent, start_timer-IsConsistent}
use rawr.Signaller.{valid}
use rawr.Signaller.Seats.{Stays, Stays-trans, Stays-of_eq, start_timer-Stays}
use rawr.Signaller.Connecting.{disconnect-IsConsistent}
use rawr.Signaller.Joining.{take_seat-Moves, found_of_seat, ready, send_ready-returns}
use mathlib.Core.List.{lookup}
use mathlib.Core.Option.{some_inj}
use native.Mathlib.Decide.{ℕ_discrete}

pub close_handler-found :
    (id : ℕ) (server : Server) (peer : Peer)
    → find_peer id server ≡ some peer
    → close_handler id server ≡ disconnect_peer id server
unfolding close_handler
close_handler-found id server peer found = rw (close_handler, found) refl

-- The peer has its seat, and all others stay.
pub record IsSeated (id : ℕ) (name : Text) (before after : Server) : Type 0 where
  pub mine :
      (peer : Peer) × (find_peer id after ≡ some peer)
      × (peer.state ≡ valid)
      × (peer.channel_id ≡ name)
  pub others : (q : ℕ) → q ≢ id → Stays q before after

-- What a peer that names a channel can meet with.
pub data Joined (id : ℕ) (name : Text) (before after : Server) : Type 0 where
  opened :
      find_channel name before ≡ none
      → find_channel name after ≡ some (record { id = name; state = await_peer; peers = id ∷ [] })
      → after.sent ≡ before.sent
      → IsSeated id name before after
      → Joined id name before after
  entered :
      (channel : Channel)
      → find_channel name before ≡ some channel
      → length channel.peers ≤ 1
      → find_channel name after ≡ some (admit_second id channel)
      → after.sent ≡ before.sent ++ map ready (set_insert id channel.peers)
      → IsSeated id name before after
      → Joined id name before after
  refused :
      (channel : Channel)
      → find_channel name before ≡ some channel
      → 2 ≤ length channel.peers
      → after ≡ disconnect_peer id before
      → Joined id name before after

contains-insert_self : (id : ℕ) (ids : List ℕ) → contains id (set_insert id ids) ≡ true
contains-insert_self id ids = ground (arith, contains-set_insert id id ids)

contains-insert_ne :
    (q id : ℕ) (ids : List ℕ) → q ≢ id → contains q (set_insert id ids) ≡ contains q ids
contains-insert_ne q id ids n = ground (arith, n, contains-set_insert q id ids)

leb_small : (n : ℕ) → n ≤ 1 → leb 2 n ≡ false
leb_small n h = ground arith

leb_large : (n : ℕ) → 2 ≤ n → leb 2 n ≡ true
leb_large n h = ground arith

set_insert-some : (id : ℕ) (ids : List ℕ) → 0 < length (set_insert id ids)
unfolding set_insert
set_insert-some id [] = omega arith
set_insert-some id (x ∷ xs) = ground arith

module _ (id : ℕ) (c : ℕ) (cs : Text) (server : Server) (peer : Peer) (k : IsConsistent server)
    (found : find_peer id server ≡ some peer) (state : peer.state ≡ no_channel) where
  -- The seat that was taken in `middle` is still there in `last`.
  IsSeated-after :
      (name : Text) (middle last : Server)
      → middle.peers ≡ adjust ℕ_discrete id (seat name) server.peers
      → ((q : ℕ) → Stays q middle last)
      → IsSeated id name server last
  IsSeated-after name middle last taken stays =
      let found_middle : find_peer id middle ≡ some (seat name peer) =
        ap (lookup ℕ_discrete id) taken
        ∙ lookup-adjust_self ℕ_discrete id (seat name) peer server.peers found in
      record {
        mine = stays id (seat name peer) found_middle;
        others = λ q n.
            Stays-trans q server middle last
              (Stays-of_eq q server middle (
                ap (lookup ℕ_discrete q) taken
                ∙ lookup-adjust_ne ℕ_discrete id q (seat name) server.peers n))
              (stays q);
      }

  open_channel-returns :
      find_channel (c ∷ cs) server ≡ none
      → (after : Server) × (open_channel id (c ∷ cs) server ≡ returns after)
        × IsConsistent after
        × Joined id (c ∷ cs) server after
  unfolding open_channel create_channel set_insert
  open_channel-returns absent =
      let name = c ∷ cs in
      let fresh : Channel = record { id = name; state = await_peer; peers = [] } in
      let inserted = insert_new text_dec name fresh server.channels in
      let opened_server : Server = record server {
        peers = adjust ℕ_discrete id (seat name) server.peers;
        channels = adjust text_dec name (admit id) inserted;
      } in
      let here : find_channel name opened_server ≡ some (admit id fresh) =
        lookup-adjust_self text_dec name (admit id) fresh inserted
          (lookup-insert_new_self text_dec name fresh server.channels absent) in
      let moves =
        take_seat-Moves id name server opened_server peer (admit id fresh) k found state
          (omega arith) refl here
          (λ other n.
            lookup-adjust_ne text_dec name other (admit id) inserted n
            ∙ lookup-insert_new_ne text_dec name other fresh server.channels n)
          (refl, omega arith, omega arith, omega arith) (ground arith)
          (λ q n q_in. absurd (ground (arith, n, q_in)))
          (λ q n sits.
            let (channel, there, _) = k.listed name q sits in
            let f : none ≡ some channel = sym absent ∙ there in absurd (cc)) in
      let consistent =
        start_timer-IsConsistent opened_server id
          (Moves-IsConsistent server opened_server id name k moves) in
      (
        start_timer id opened_server,
        refl,
        consistent,
        opened absent here refl (
            IsSeated-after name opened_server (start_timer id opened_server) refl
              (λ q. start_timer-Stays id q opened_server)),
      )

  enter_channel-returns :
      (channel : Channel)
      → find_channel (c ∷ cs) server ≡ some channel
      → length channel.peers ≤ 1
      → (after : Server) × (enter_channel id (c ∷ cs) channel server ≡ returns after)
        × IsConsistent after
        × Joined id (c ∷ cs) server after
  unfolding enter_channel
  enter_channel-returns channel there has_room =
      let name = c ∷ cs in
      let members = set_insert id channel.peers in
      let (named, some_peers, two, has_name) = k.room name channel there in
      let entered_server : Server = record server {
        peers = adjust ℕ_discrete id (seat channel.id) server.peers;
        channels = adjust text_dec name (admit_second id) server.channels;
      } in
      let here : find_channel name entered_server ≡ some (admit_second id channel) =
        lookup-adjust_self text_dec name (admit_second id) channel server.channels there in
      let moves =
        take_seat-Moves id name server entered_server peer (admit_second id channel) k found state
          (omega arith) (ap (λ t. adjust ℕ_discrete id (seat t) server.peers) named) here
          (λ other n. lookup-adjust_ne text_dec name other (admit_second id) server.channels n)
          (
            named,
            set_insert-some id channel.peers,
            omega (arith, length-set_insert id channel.peers),
            has_name,
          )
          (contains-insert_self id channel.peers)
          (λ q n q_in.
            k.seated name channel q there (sym (contains-insert_ne q id channel.peers n) ∙ q_in))
          (λ q n sits.
            let (other, at, q_in) = k.listed name q sits in
            contains-insert_ne q id channel.peers n
            ∙ subst
                (λ o.
                  (x : Channel)
                  → o ≡ some x
                  → contains q x.peers ≡ true
                  → contains q channel.peers ≡ true)
                (sym there)
                (λ x e x_in. subst (λ y. contains q y.peers ≡ true) (sym (some_inj.0 e)) x_in) other
                at q_in) in
      let k' = Moves-IsConsistent server entered_server id name k moves in
      let (after, sends, consistent, channels, sent, stays) =
        send_ready-returns members entered_server k'
          (λ q q_in. found_of_seat _ name (k'.seated name (admit_second id channel) q here q_in)) in
      let here_after : find_channel name after ≡ some (admit_second id channel) =
        ap (lookup text_dec name) channels ∙ here in
      (
        after,
        rw (enter_channel, leb_small (length channel.peers) has_room) sends,
        consistent,
        entered channel there has_room here_after sent (
            IsSeated-after name entered_server after
              (ap (λ t. adjust ℕ_discrete id (seat t) server.peers) named) stays),
      )

  enter_channel-full :
      (channel : Channel)
      → find_channel (c ∷ cs) server ≡ some channel
      → 2 ≤ length channel.peers
      → (after : Server) × (enter_channel id (c ∷ cs) channel server ≡ returns after)
        × IsConsistent after
        × Joined id (c ∷ cs) server after
  unfolding enter_channel
  enter_channel-full channel there full = (
    disconnect_peer id server,
    rw (enter_channel, leb_large (length channel.peers) full)
        (ap returns (close_handler-found id server peer found)),
    disconnect-IsConsistent id server k,
    refused channel there full refl,
  )

  -- A peer that has named no channel yet names one, of a consistent server. The server goes on, and is
  -- consistent again. Either no such channel was there: it is opened with the peer as its only one, and
  -- nothing is sent. Or it had one peer: the peer is its second, and both are told that the channel is
  -- ready. In both cases the peer is valid and in that channel, and every other peer stays in its state
  -- and its channel. Or it was full: the peer is disconnected.
  pub join_channel-Joined :
      (after : Server) × (join_channel id (c ∷ cs) server ≡ returns after)
      × IsConsistent after
      × Joined id (c ∷ cs) server after
  unfolding join_channel
  join_channel-Joined = elim (Option-cases (find_channel (c ∷ cs) server)) [
    | inl absent ↦
        let (after, e, consistent, joined) = open_channel-returns absent in
        (after, rw (join_channel, absent) e, consistent, joined)
    | inr (channel, there) ↦ elim (Bool-cases (leb 2 (length channel.peers))) [
      | inl full ↦
          let (after, e, consistent, joined) = enter_channel-full channel there (ground arith) in
          (after, rw (join_channel, there) e, consistent, joined)
      | inr has_room ↦
          let (after, e, consistent, joined) = enter_channel-returns channel there (ground arith) in
          (after, rw (join_channel, there) e, consistent, joined)
    ]
  ]

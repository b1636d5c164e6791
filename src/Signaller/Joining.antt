-- ===== src/Signaller/Joining.antt =====
-- A peer of the signalling server takes its seat in a channel, and the peers of a channel are told that
-- it is ready.
use rawr.Common.{ℕ, ◌<◌, ◌≡◌, ◌≢◌, refl, sym, ap, ◌∙◌, subst, arith, true}
use rawr.Common.{List, [], ◌∷◌, ◌++◌, Option, none, some, inr, length, map}
use rawr.Common.{append-nil, append_assoc, returns}
use rawr.Common.Maps.{contains, adjust}
use rawr.Common.Maps.{lookup-adjust_self, lookup-adjust_ne}
use rawr.Signaller.{Server, Peer, Channel, no_channel, Text, find_peer}
use rawr.Signaller.{find_channel}
use rawr.Signaller.Handlers.{start_timer, tcp_send, seat}
use rawr.Signaller.Handlers.{send_ready}
use rawr.Signaller.Handlers.{channel_ready_message}
use rawr.Signaller.Seats.{seat_of, seat_by, IsRoom, IsKnown, IsConsistent, Moves}
use rawr.Signaller.Seats.{start_timer-IsConsistent}
use rawr.Signaller.Seats.{Stays, Stays-trans, Stays-of_eq, start_timer-Stays}
use mathlib.Core.List.{lookup}
use mathlib.Core.Option.{some_inj}
use native.Mathlib.Decide.{ℕ_discrete}

pub found_of_seat :
    (o : Option Peer) (name : Text) → seat_of o ≡ some name → (peer : Peer) × (o ≡ some peer)
found_of_seat none name sits = absurd (cc)
found_of_seat (some peer) name sits = (peer, refl)

-- A peer without a seat, which takes one in the channel `name` that is `here` afterwards.
module _ (id : ℕ) (name : Text) (before after : Server) (peer : Peer) (here : Channel)
    (k : IsConsistent before) (found : find_peer id before ≡ some peer)
    (state : peer.state ≡ no_channel) (has_name : 0 < length name)
    (peers_eq : after.peers ≡ adjust ℕ_discrete id (seat name) before.peers)
    (here_eq : find_channel name after ≡ some here)
    (others_eq : (other : Text)
      → other ≢ name
      → find_channel other after ≡ find_channel other before) where
  seat_before : seat_of (find_peer id before) ≡ none
  seat_before = ap seat_of found ∙ ap (λ s. seat_by s peer.channel_id) state

  pub peer_after : find_peer id after ≡ some (seat name peer)
  peer_after =
      ap (lookup ℕ_discrete id) peers_eq
      ∙ lookup-adjust_self ℕ_discrete id (seat name) peer before.peers found

  pub take_seat-Moves :
      IsRoom name here
      → contains id here.peers ≡ true
      → ((q : ℕ) → q ≢ id → contains q here.peers ≡ true → seat_of (find_peer q before) ≡ some name)
      → ((q : ℕ) → q ≢ id → seat_of (find_peer q before) ≡ some name → contains q here.peers ≡ true)
      → Moves before after id name
  take_seat-Moves room me_in from_list from_seat = record {
    other_channels = others_eq;
    other_peers = λ q n.
        ap (lookup ℕ_discrete q) peers_eq
        ∙ lookup-adjust_ne ℕ_discrete id q (seat name) before.peers n;
    comes_from = λ other sits. let f : none ≡ some other = sym seat_before ∙ sits in absurd (cc);
    room = λ c found_c. subst (IsRoom name) (some_inj.0 (sym here_eq ∙ found_c)) room;
    others_seated = λ c q found_c n q_in.
        from_list q n
          (subst (λ x. contains q x.peers ≡ true) (sym (some_inj.0 (sym here_eq ∙ found_c))) q_in);
    seated = λ c found_c is_in. ap seat_of peer_after;
    others_listed = λ q n sits. (here, here_eq, from_seat q n sits);
    listed = λ other sits.
        let e : name ≡ other = some_inj.0 (sym (ap seat_of peer_after) ∙ sits) in
        (here, ap (λ t. find_channel t after) (sym e) ∙ here_eq, me_in);
    known = λ other found_me.
        subst (IsKnown id) (some_inj.0 (sym peer_after ∙ found_me))
          ((k.known id peer found).0, inr refl);
  }

-- What is sent when a channel is ready.
abbrev pub ready : ℕ → ℕ × List ℕ
ready id = (id, channel_ready_message ∷ 0 ∷ [])

-- Every peer of the list is there, and gets the message in its turn.
pub send_ready-returns :
    (ids : List ℕ) (server : Server)
    → IsConsistent server
    → ((q : ℕ) → contains q ids ≡ true → (peer : Peer) × (find_peer q server ≡ some peer))
    → (after : Server) × (send_ready ids server ≡ returns after)
      × IsConsistent after
      × (after.channels ≡ server.channels)
      × (after.sent ≡ server.sent ++ map ready ids)
      × ((q : ℕ) → Stays q server after)
unfolding send_ready
send_ready-returns [] server k there =
    (server, refl, k, refl, sym (append-nil server.sent), λ q. Stays-of_eq q server server refl)
send_ready-returns (id ∷ ids) server k there =
    let (peer, found) = there id (ground arith) in
    let next = tcp_send id (channel_ready_message ∷ 0 ∷ []) (start_timer id server) in
    let timed = start_timer-IsConsistent server id k in
    let k' : IsConsistent next = record {
      seated = timed.seated;
      listed = timed.listed;
      room = timed.room;
      known = timed.known;
    } in
    let (after, e, consistent, channels, sent, stays) = send_ready-returns ids next k' (λ q q_in.
      let (peer_q, found_q) = there q (ground arith) in
      let (other, found_other, _, _) = start_timer-Stays id q server peer_q found_q in
      (other, found_other)) in
    (
      after,
      rw (send_ready, found) e,
      consistent,
      channels,
      sent ∙ append_assoc server.sent (ready id ∷ []) (map ready ids),
      λ q. Stays-trans q server next after (start_timer-Stays id q server) (stays q),
    )

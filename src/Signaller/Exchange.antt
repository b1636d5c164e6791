-- ===== src/Signaller/Exchange.antt =====
-- The peers of a channel of the signalling server exchange their candidates.
use rawr.Common.{◌≢◌}
use rawr.Common.{ℕ, ◌+◌, ◌≡◌, refl, sym, ap, ◌∙◌, arith, true}
use rawr.Common.{List, [], ◌∷◌, ◌++◌, none, some, inl, inr, map}
use rawr.Common.{Bool-cases, append-nil, append_assoc, leb, ◌==◌}
use rawr.Common.{if◌then◌else◌, ap₂}
use rawr.Common.Maps.{contains, set_erase, lookup-adjust_self, lookup-adjust_ne}
use rawr.Signaller.{Server, Peer, Channel, valid, sent_candidates}
use rawr.Signaller.{find_peer, find_channel}
use rawr.Signaller.Handlers.{change_peer, start_timer, tcp_send, passed}
use rawr.Signaller.Handlers.{has_sent, send_on, start_timers, mark_sent, end_exchange}
use rawr.Signaller.Seats.{seat_by, IsConsistent, change_peer-IsConsistent}
use rawr.Signaller.Seats.{start_timer-IsConsistent}
use rawr.Signaller.Seats.{Stays, Stays-trans, Stays-of_eq, start_timer-Stays}
use rawr.Signaller.Joining.{found_of_seat}
use native.Mathlib.Decide.{ℕ_discrete}

-- A message for each peer of a list.
abbrev pub to_each : List ℕ → List ℕ → List (ℕ × List ℕ)
to_each bytes ids = map (λ q. (q, bytes)) ids

-- How many peers of a list other than `id` have sent candidates.
pub senders : ℕ → List ℕ → Server → ℕ
senders id [] server = 0
senders id (q ∷ qs) server =
    let rest = senders id qs server in
    let counted : ℕ = elim (find_peer q server) [
      | none ↦ rest
      | some other ↦ has_sent other.state + rest
    ] in
    if q == id then rest else counted

senders-sent :
    (id : ℕ) (ids : List ℕ) (server : Server) (sent : List (ℕ × List ℕ))
    → senders id ids (record server { sent = sent }) ≡ senders id ids server
unfolding senders
senders-sent id [] server sent = refl
senders-sent id (q ∷ qs) server sent = ground (arith, senders-sent id qs server sent)

-- Where all peers of the list are there, the message goes to each of them but the sender.
send_on-passed :
    (id : ℕ) (bytes ids : List ℕ) (count : ℕ) (server : Server)
    → ((q : ℕ) → contains q ids ≡ true → (peer : Peer) × (find_peer q server ≡ some peer))
    → send_on id bytes ids count server
      ≡ passed
          (count + senders id ids server)
          (record server { sent = server.sent ++ to_each bytes (set_erase id ids) })
unfolding send_on senders set_erase
send_on-passed id bytes [] count server there =
    ap (λ n. passed n server) (omega arith)
    ∙ ap (λ s. passed (count + 0) (record server { sent = s })) (sym (append-nil server.sent))
send_on-passed id bytes (q ∷ qs) count server there =
    let (other, found) = there q (ground arith) in
    let rest = λ (p : ℕ) (h : contains p qs ≡ true). there p (ground (arith, h)) in
    elim (Bool-cases (q == id)) [
      | inl me ↦ rw (send_on, senders, set_erase, me) (send_on-passed id bytes qs count server rest)
      | inr not_me ↦
          let sent = server.sent ++ ((q, bytes) ∷ []) in
          let counts : count + has_sent other.state + senders id qs (record server { sent = sent })
              ≡ count + (has_sent other.state + senders id qs server) =
            omega (arith, senders-sent id qs server sent) in
          rw (send_on, senders, set_erase, not_me, found)
            (send_on-passed id bytes qs (count + has_sent other.state) (tcp_send q bytes server)
                rest
              ∙ ap₂ (λ n l. passed n (record server { sent = l })) counts
                  (append_assoc server.sent ((q, bytes) ∷ []) (to_each bytes (set_erase id qs))))
    ]

-- Timers change nothing else.
start_timers-keep :
    (ids : List ℕ) (server : Server)
    → IsConsistent server
    → IsConsistent (start_timers ids server)
      × ((start_timers ids server).channels ≡ server.channels)
      × ((start_timers ids server).sent ≡ server.sent)
unfolding start_timers
start_timers-keep [] server k = (k, refl, refl)
start_timers-keep (id ∷ ids) server k =
    start_timers-keep ids (start_timer id server) (start_timer-IsConsistent server id k)

start_timers-Stays :
    (ids : List ℕ) (q : ℕ) (server : Server) → Stays q server (start_timers ids server)
unfolding start_timers
start_timers-Stays [] q server = Stays-of_eq q server server refl
start_timers-Stays (id ∷ ids) q server =
    Stays-trans q server (start_timer id server) (start_timers ids (start_timer id server))
      (start_timer-Stays id q server) (start_timers-Stays ids q (start_timer id server))

-- A server after the candidates of a peer were passed on.
pub record IsPassedOn (id : ℕ) (bytes : List ℕ) (channel : Channel) (before after : Server)
    : Type 0 where
  pub consistent : IsConsistent after
  pub to_others : after.sent ≡ before.sent ++ to_each bytes (set_erase id channel.peers)
  pub same_channels : after.channels ≡ before.channels
  pub marked :
      (peer : Peer) × (find_peer id after ≡ some peer)
      × (peer.state ≡ sent_candidates)
      × (named : Peer) × (find_peer id before ≡ some named)
      × (peer.channel_id ≡ named.channel_id)
  pub others : (q : ℕ) → q ≢ id → Stays q before after

module _ (id : ℕ) (bytes : List ℕ) (server : Server) (peer : Peer) (channel : Channel)
    (k : IsConsistent server) (found : find_peer id server ≡ some peer) (state : peer.state ≡ valid)
    (at : find_channel peer.channel_id server ≡ some channel) where
  pub end_exchange-IsPassedOn :
      IsPassedOn id bytes channel server
        (end_exchange id channel.peers (send_on id bytes channel.peers 0 server))
  unfolding end_exchange
  end_exchange-IsPassedOn =
      let sent_server : Server = record server {
        sent = server.sent ++ to_each bytes (set_erase id channel.peers);
      } in
      let marked = change_peer id mark_sent sent_server in
      let k_sent : IsConsistent sent_server = record {
        seated = k.seated;
        listed = k.listed;
        room = k.room;
        known = k.known;
      } in
      let k_marked : IsConsistent marked =
        change_peer-IsConsistent sent_server id peer mark_sent k_sent found
          (ap (λ s. seat_by s peer.channel_id) (sym state)) ((k.known id peer found).0, inr refl) in
      let found_marked = lookup-adjust_self ℕ_discrete id mark_sent peer server.peers found in
      let timed = start_timers-keep channel.peers marked k_marked in
      let (last, found_last, last_state, last_channel) =
        start_timers-Stays channel.peers id marked (mark_sent peer) found_marked in
      let unmarked : (q : ℕ) → q ≢ id → Stays q server marked = λ q n.
        Stays-of_eq q server marked (lookup-adjust_ne ℕ_discrete id q mark_sent server.peers n) in
      let passes =
        send_on-passed id bytes channel.peers 0 server (λ q q_in.
          found_of_seat _ peer.channel_id (k.seated peer.channel_id channel q at q_in)) in
      rw passes (elim (Bool-cases (leb 2 (0 + senders id channel.peers server + 1))) [
        | inl all ↦ rw all (record {
          consistent = timed.0;
          to_others = timed.2;
          same_channels = timed.1;
          marked = (last, found_last, last_state, peer, found, last_channel);
          others = λ q n.
              Stays-trans q server marked (start_timers channel.peers marked) (unmarked q n)
                (start_timers-Stays channel.peers q marked);
        })
        | inr some_left ↦ rw some_left (record {
          consistent = k_marked;
          to_others = refl;
          same_channels = refl;
          marked = (mark_sent peer, found_marked, refl, peer, found, refl);
          others = unmarked;
        })
      ])

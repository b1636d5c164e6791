-- ===== src/Signaller/Leaving.antt =====
-- What becomes of a channel of the signalling server when a peer leaves it.
use rawr.Common.{ℕ, ◌<◌, ◌≡◌, ◌≢◌, refl, sym, ap, ◌∙◌, subst, arith, true}
use rawr.Common.{List, [], ◌∷◌, Option, none, some, ◌⊎◌, inl, inr, length}
use rawr.Common.Maps.{contains, set_erase, contains-set_erase, length-set_erase, erase_key, adjust}
use rawr.Common.Maps.{lookup-adjust_self, lookup-adjust_ne, lookup-erase_key_self}
use rawr.Common.Maps.{lookup-erase_key_ne}
use rawr.Signaller.{Server, Peer, Channel, Text, text_dec, find_peer, find_channel}
use rawr.Signaller.{drop_peer, leave_channel, close_channel, disconnect_peer}
use rawr.Signaller.Seats.{seat_of, seat_by, IsRoom, IsConsistent}
use rawr.Signaller.Seats.{Moves}
use mathlib.Core.List.{lookup}
use mathlib.Core.Option.{some_inj}
use native.Mathlib.Decide.{ℕ_discrete}

-- What becomes of the channel that a peer leaves.
abbrev pub After : Channel → List ℕ → Option Channel → Type 0
After channel left found =
    ((left ≡ []) × (found ≡ none))
    ⊎ ((0 < length left) × (found ≡ some (record channel { peers = left })))

module _ (id : ℕ) (name : Text) (server : Server) (channel : Channel)
    (found : find_channel name server ≡ some channel) (named : channel.id ≡ name) where
  leave_channel-closes :
      set_erase id channel.peers ≡ []
      → leave_channel id name server ≡ record server {
        channels = erase_key text_dec name (adjust text_dec name (drop_peer id) server.channels);
      }
  unfolding leave_channel close_channel
  leave_channel-closes e = rw (leave_channel, found, e, named) refl

  leave_channel-keeps :
      (q : ℕ) (qs : List ℕ)
      → set_erase id channel.peers ≡ q ∷ qs
      → leave_channel id name server
        ≡ record server { channels = adjust text_dec name (drop_peer id) server.channels }
  unfolding leave_channel
  leave_channel-keeps q qs e = rw (leave_channel, found, e) refl

  leave_channel-here :
      (left : List ℕ)
      → set_erase id channel.peers ≡ left
      → After channel left (find_channel name (leave_channel id name server))
  leave_channel-here [] e = inl (
    refl,
    ap (find_channel name) (leave_channel-closes e) ∙ lookup-erase_key_self text_dec name _,
  )
  leave_channel-here (q ∷ qs) e = inr (
    omega arith,
    ap (find_channel name) (leave_channel-keeps q qs e)
        ∙ lookup-adjust_self text_dec name (drop_peer id) channel server.channels found
        ∙ ap (λ left. some (record channel { peers = left })) e,
  )

  leave_channel-others :
      (left : List ℕ)
      → set_erase id channel.peers ≡ left
      → (other : Text) → other ≢ name
      → find_channel other (leave_channel id name server) ≡ find_channel other server
  leave_channel-others [] e other n =
      ap (find_channel other) (leave_channel-closes e)
      ∙ lookup-erase_key_ne text_dec name other _ n
      ∙ lookup-adjust_ne text_dec name other (drop_peer id) server.channels n
  leave_channel-others (q ∷ qs) e other n =
      ap (find_channel other) (leave_channel-keeps q qs e)
      ∙ lookup-adjust_ne text_dec name other (drop_peer id) server.channels n

  pub leave_channel-peers :
      (left : List ℕ)
      → set_erase id channel.peers ≡ left
      → (leave_channel id name server).peers ≡ server.peers
  leave_channel-peers [] e = ap (λ s. s.peers) (leave_channel-closes e)
  leave_channel-peers (q ∷ qs) e = ap (λ s. s.peers) (leave_channel-keeps q qs e)

pub leave_channel-absent :
    (id : ℕ) (name : Text) (server : Server)
    → find_channel name server ≡ none
    → leave_channel id name server ≡ server
unfolding leave_channel
leave_channel-absent id name server gone = rw (leave_channel, gone) refl

pub disconnect_peer-found :
    (id : ℕ) (server : Server) (peer : Peer)
    → find_peer id server ≡ some peer
    → disconnect_peer id server ≡ record (leave_channel id peer.channel_id server) {
      peers = erase_key ℕ_discrete id (leave_channel id peer.channel_id server).peers;
    }
unfolding disconnect_peer
disconnect_peer-found id server peer found = rw (disconnect_peer, found) refl

pub disconnect_peer-absent :
    (id : ℕ) (server : Server) → find_peer id server ≡ none → disconnect_peer id server ≡ server
unfolding disconnect_peer
disconnect_peer-absent id server gone = rw (disconnect_peer, gone) refl

no_seat_after :
    (id : ℕ) (peers : List (ℕ × Peer)) (name : Text)
    → seat_of (lookup ℕ_discrete id (erase_key ℕ_discrete id peers)) ≡ some name
    → ⊥
no_seat_after id peers name sits =
    let none_some : none ≡ some name =
      ap seat_of (sym (lookup-erase_key_self ℕ_discrete id peers)) ∙ sits in
    cc

-- A peer that has its seat in a channel goes.
pub disconnect-Moves :
    (id : ℕ) (server : Server) (peer : Peer)
    → IsConsistent server
    → find_peer id server ≡ some peer
    → seat_by peer.state peer.channel_id ≡ some peer.channel_id
    → Moves server (disconnect_peer id server) id peer.channel_id
disconnect-Moves id server peer k found seated =
    let name = peer.channel_id in
    let (channel, at, is_in) = k.listed name id (ap seat_of found ∙ seated) in
    let (named, some_peers, two, has_name) = k.room name channel at in
    let left = set_erase id channel.peers in
    let step = disconnect_peer-found id server peer found in
    let peers_eq = leave_channel-peers id name server channel at named left refl in
    let here = leave_channel-here id name server channel at named left refl in
    let gone_self : find_peer id (disconnect_peer id server) ≡ none =
      ap (find_peer id) step ∙ lookup-erase_key_self ℕ_discrete id _ in
    let now : (c : Channel)
        → find_channel name (disconnect_peer id server) ≡ some c
        → (0 < length left) × (record channel { peers = left } ≡ c) =
      λ c found_c. elim here [
        | inl (none_left, closed) ↦
            let f : none ≡ some c = sym closed ∙ ap (find_channel name) (sym step) ∙ found_c in
            absurd (cc)
        | inr (many, kept) ↦
            let f : some (record channel { peers = left }) ≡ some c =
              sym kept ∙ ap (find_channel name) (sym step) ∙ found_c in
            (many, some_inj.0 f)
      ] in
    record {
      other_channels = λ other n.
          ap (find_channel other) step
          ∙ leave_channel-others id name server channel at named left refl other n;
      other_peers = λ q n.
          ap (find_peer q) step
          ∙ lookup-erase_key_ne ℕ_discrete id q _ n
          ∙ ap (lookup ℕ_discrete q) peers_eq;
      comes_from = λ other sits. some_inj.0 (sym sits ∙ ap seat_of found ∙ seated);
      room = λ c found_c.
          let (many, same) = now c found_c in
          subst (IsRoom name) same
            (named, many, omega (arith, length-set_erase id channel.peers, two), has_name);
      others_seated = λ c q found_c n q_in.
          let (many, same) = now c found_c in
          let q_left : contains q left ≡ true =
            subst (λ x. contains q x.peers ≡ true) (sym same) q_in in
          k.seated name channel q at
            (ground (arith, q_left, n, contains-set_erase q id channel.peers));
      seated = λ c found_c me_in.
          let (many, same) = now c found_c in
          let me_left : contains id left ≡ true =
            subst (λ x. contains id x.peers ≡ true) (sym same) me_in in
          absurd (ground (arith, me_left, contains-set_erase id id channel.peers));
      others_listed = λ q n sits.
          let (c, found_c, q_in) = k.listed name q sits in
          let same : channel ≡ c = some_inj.0 (sym at ∙ found_c) in
          let q_left : contains q left ≡ true = ground (
            arith,
            n,
            subst (λ x. contains q x.peers ≡ true) (sym same) q_in,
            contains-set_erase q id channel.peers,
          ) in
          elim here [
            | inl (none_left, closed) ↦
                let f : contains q [] ≡ true = subst (λ l. contains q l ≡ true) none_left q_left in
                absurd (cc)
            | inr (many, kept) ↦
                (record channel { peers = left }, ap (find_channel name) step ∙ kept, q_left)
          ];
      listed = λ other sits.
          absurd (no_seat_after id _ other (ap (λ s. seat_of (find_peer id s)) (sym step) ∙ sits));
      known = λ other found_me. let f : none ≡ some other = sym gone_self ∙ found_me in absurd (cc);
    }

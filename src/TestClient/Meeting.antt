-- ===== src/TestClient/Meeting.antt =====
-- Two clients meet in a channel of the signalling server and exchange their candidates.
use rawr.Common.{ℕ, ◌%◌, ◌<◌, ◌≡◌, ◌≢◌, refl, sym, ap, ◌∙◌, arith}
use rawr.Common.{List, [], ◌∷◌, ◌++◌, none, some, returns, length, map, false}
use rawr.Common.{◌==◌}
use rawr.Common.Maps.{contains, set_insert, set_erase}
use rawr.Signaller.{Server, Peer, Channel, no_channel, Text, find_peer, find_channel}
use rawr.Signaller.Handlers.{Mbuf, start_timer, recv_handler, recv_in_state, recv_channel_id}
use rawr.Signaller.Handlers.{join_channel, admit_second}
use rawr.Signaller.Seats.{IsConsistent, start_timer-Stays}
use rawr.Signaller.Seats.{start_timer-IsConsistent}
use rawr.Signaller.Joining.{ready}
use rawr.Signaller.Naming.{Joined, opened, entered, refused, IsSeated, join_channel-Joined}
use rawr.Signaller.Candidates.{IsCandidates, recv_handler-sized}
use rawr.TestClient.{channel_id_bytes, candidates_bytes}
use rawr.TestClient.Loop.{IsMbuf}
use mathlib.Core.Option.{some_inj}
use native.Mathlib.Nat.{mod-eq_of_lt}

module _ (lib : Mbuf) (reads : IsMbuf lib) where
  recv_channel_id-bytes :
      (id c : ℕ) (cs : Text) (server : Server)
      → contains 0 (c ∷ cs) ≡ false
      → length (c ∷ cs) < 256
      → recv_channel_id lib (channel_id_bytes (c ∷ cs)) id server ≡ join_channel id (c ∷ cs) server
  unfolding recv_channel_id
  recv_channel_id-bytes id c cs server no_zero short =
      let len : length (c ∷ cs) % 256 ≡ length (c ∷ cs) = mod-eq_of_lt short in
      let some_len : (length (c ∷ cs) == 0) ≡ false = ground arith in
      rw
        (
          recv_channel_id,
          reads.read_u8-cons 1 (length (c ∷ cs) % 256 ∷ c ∷ cs),
          reads.read_u8-cons (length (c ∷ cs) % 256) (c ∷ cs),
          len,
          some_len,
          reads.read_str-text (c ∷ cs) no_zero,
        )
        refl

  -- The message of a client that names its channel.
  pub recv_handler-Joined :
      (id c : ℕ) (cs : Text) (server : Server) (peer : Peer)
      → contains 0 (c ∷ cs) ≡ false
      → length (c ∷ cs) < 256
      → IsConsistent server
      → find_peer id server ≡ some peer
      → peer.state ≡ no_channel
      → (after : Server) × (recv_handler lib id (channel_id_bytes (c ∷ cs)) server ≡ returns after)
        × IsConsistent after
        × Joined id (c ∷ cs) (start_timer id server) after
  unfolding recv_in_state
  recv_handler-Joined id c cs server peer no_zero short k found state =
      let timed = start_timer id server in
      let (now, found', state', _) = start_timer-Stays id id server peer found in
      let (after, e, consistent, joined) =
        join_channel-Joined id c cs timed now (start_timer-IsConsistent server id k) found'
          (state' ∙ state) in
      (
        after,
        recv_handler-sized lib id (channel_id_bytes (c ∷ cs)) server peer found (omega arith)
              (omega (arith, short))
            ∙ ap (λ s. recv_in_state s lib (channel_id_bytes (c ∷ cs)) id peer timed) state
            ∙ recv_channel_id-bytes id c cs timed no_zero short
            ∙ e,
        consistent,
        joined,
      )

  pub candidates_bytes-IsCandidates :
      (addresses : List ℕ) → length addresses ≡ 12 → IsCandidates lib (candidates_bytes addresses)
  candidates_bytes-IsCandidates addresses twelve = record {
    large = omega arith;
    small = omega (arith, twelve);
    kind = rw (reads.read_u8-cons 3 (12 ∷ addresses)) refl;
    whole = rw (reads.read_u8-cons 3 (12 ∷ addresses), reads.read_u8-cons 12 addresses) refl;
  }

pub set_erase_first : (p q : ℕ) → p ≢ q → set_erase p (set_insert q (p ∷ [])) ≡ q ∷ []
unfolding set_insert set_erase
set_erase_first p q n = ground arith

pub set_erase_second : (p q : ℕ) → p ≢ q → set_erase q (set_insert q (p ∷ [])) ≡ p ∷ []
unfolding set_insert set_erase
set_erase_second p q n = ground arith

-- What the first peer finds, where the channel is not there.
pub first_opens :
    (p : ℕ) (name : Text) (before after : Server)
    → find_channel name before ≡ none
    → Joined p name before after
    → (channel : Channel) × (channel.peers ≡ p ∷ [])
      × (find_channel name after ≡ some channel)
      × (after.sent ≡ before.sent)
      × IsSeated p name before after
first_opens p name before after absent (opened _ here sent seated) = (_, refl, here, sent, seated)
first_opens p name before after absent (entered channel there _ _ _ _) =
    let f : none ≡ some channel = sym absent ∙ there in absurd (cc)
first_opens p name before after absent (refused channel there _ _) =
    let f : none ≡ some channel = sym absent ∙ there in absurd (cc)

-- What the second peer finds.
pub second_enters :
    (q : ℕ) (name : Text) (before after : Server) (channel : Channel)
    → find_channel name before ≡ some channel
    → length channel.peers ≡ 1
    → Joined q name before after
    → (find_channel name after ≡ some (admit_second q channel))
      × (after.sent ≡ before.sent ++ map ready (set_insert q channel.peers))
      × IsSeated q name before after
second_enters q name before after channel there one (opened absent _ _ _) =
    let f : none ≡ some channel = sym absent ∙ there in absurd (cc)
second_enters q name before after channel there one (entered other at _ here sent seated) =
    let same : other ≡ channel = some_inj.0 (sym at ∙ there) in
    (
      here ∙ ap (λ x. some (admit_second q x)) same,
      sent ∙ ap (λ (x : Channel). before.sent ++ map ready (set_insert q x.peers)) same,
      seated,
    )
second_enters q name before after channel there one (refused other at full _) =
    let same : other ≡ channel = some_inj.0 (sym at ∙ there) in
    absurd (omega (arith, ap (λ (x : Channel). length x.peers) same, one, full))

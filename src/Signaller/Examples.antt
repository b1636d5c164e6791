-- ===== src/Signaller/Examples.antt =====
-- Runs of the signalling server.
use rawr.Common.{leb, length, drop}
use rawr.Common.{ℕ, ◌≡◌, refl, arith, true, false, List, [], ◌∷◌, zero, suc}
use rawr.Common.{some, returns, ◌==◌, if◌then◌else◌}
use rawr.Common.Maps.{insert_new, adjust, set_insert}
use rawr.Signaller.{Server, Peer, Channel, no_channel, valid, await_peer, exchange, Text}
use rawr.Signaller.{hash_from_sock_address}
use rawr.Signaller.{text_dec, create_peer, create_channel}
use rawr.Signaller.Handlers.{Mbuf, handle, connects, receives, connect_handler, recv_handler}
use rawr.Signaller.Handlers.{recv_in_state, recv_channel_id, join_channel, open_channel}
use rawr.Signaller.Handlers.{enter_channel, send_ready}
use rawr.Signaller.Seats.{IsConsistent}
use rawr.Signaller.Naming.{Joined, join_channel-Joined}
use rawr.Signaller.Exchange.{IsPassedOn}
use rawr.Signaller.Candidates.{IsCandidates, recv_handler-IsPassedOn, recv_handler-lost}
use rawr.Signaller.Serving.{ReadsTexts, Served, starts, serves, Served-goes_on}
use mathlib.Core.List.{lookup}
use native.Mathlib.Decide.{ℕ_discrete}

abbrev pub up_to_zero : ℕ → List ℕ → Text
up_to_zero zero bytes = []
up_to_zero (suc n) [] = []
up_to_zero (suc n) (c ∷ cs) = if c == 0 then [] else c ∷ up_to_zero n cs

abbrev pub next_byte : List ℕ → ℕ × List ℕ
next_byte [] = (0, [])
next_byte (b ∷ bytes) = (b, bytes)

abbrev pub libre : Mbuf
libre = record {
  read_u8 = next_byte;
  read_str = λ bytes n. some (up_to_zero n bytes);
  skip = λ n bytes. if leb n (length bytes) then drop n bytes else bytes;
}

pub libre-ReadsTexts : ReadsTexts libre
libre-ReadsTexts bytes n = (up_to_zero n bytes, refl)

abbrev pub hello : Text
hello = 104 ∷ 105 ∷ []

-- A peer before and after it has named its channel.
abbrev pub caller : ℕ → Peer
caller id = record { id = id; state = no_channel; channel_id = []; connected = true; timer = false }

abbrev guest : ℕ → Peer
guest id = record { id = id; state = valid; channel_id = hello; connected = true; timer = true }

abbrev pub one_connected : Server
one_connected = record { peers = (7, caller 7) ∷ []; channels = []; sent = [] }

abbrev waiting : Channel
waiting = record { id = hello; state = await_peer; peers = 7 ∷ [] }

abbrev one_waits : Server
one_waits = record { peers = (7, guest 7) ∷ []; channels = (hello, waiting) ∷ []; sent = [] }

abbrev two_connected : Server
two_connected = record {
  peers = (7, guest 7) ∷ (9, caller 9) ∷ [];
  channels = (hello, waiting) ∷ [];
  sent = [];
}

abbrev meeting : Channel
meeting = record { id = hello; state = exchange; peers = 7 ∷ 9 ∷ [] }

abbrev two_meet : Server
two_meet = record {
  peers = (7, guest 7) ∷ (9, guest 9) ∷ [];
  channels = (hello, meeting) ∷ [];
  sent = (7, 2 ∷ 0 ∷ []) ∷ (9, 2 ∷ 0 ∷ []) ∷ [];
}

pub one_connected-Served : Served libre one_connected
unfolding handle connect_handler create_peer insert_new adjust hash_from_sock_address lookup
    ℕ_discrete text_dec
one_connected-Served = serves (connects 0 7 true) starts refl refl

one_waits-Served : Served libre one_waits
unfolding handle recv_handler recv_in_state recv_channel_id join_channel open_channel create_channel
    insert_new adjust set_insert lookup ℕ_discrete text_dec
one_waits-Served = serves (receives 7 (1 ∷ 2 ∷ hello)) one_connected-Served tt refl

two_connected-Served : Served libre two_connected
unfolding handle connect_handler create_peer insert_new adjust hash_from_sock_address lookup
    ℕ_discrete text_dec
two_connected-Served = serves (connects 0 9 true) one_waits-Served refl refl

two_meet-Served : Served libre two_meet
unfolding handle recv_handler recv_in_state recv_channel_id join_channel enter_channel send_ready
    adjust set_insert lookup ℕ_discrete text_dec
two_meet-Served = serves (receives 9 (1 ∷ 2 ∷ hello)) two_connected-Served tt refl

-- Two addresses, one candidate.
abbrev candidates : List ℕ
candidates = 3 ∷ 6 ∷ 1 ∷ 2 ∷ 3 ∷ 4 ∷ 5 ∷ 6 ∷ []

Served-goes_on_example :
    IsConsistent two_connected
    × (after : Server) × (handle libre (receives 9 (1 ∷ 2 ∷ hello)) two_connected ≡ returns after)
    × IsConsistent after
Served-goes_on_example =
    Served-goes_on libre (receives 9 (1 ∷ 2 ∷ hello)) two_connected libre-ReadsTexts
      two_connected-Served tt

abbrev pub is_consistent : (server : Server) → Served libre server → IsConsistent server
is_consistent server served =
    (Served-goes_on libre (receives 7 []) server libre-ReadsTexts served tt).0

join_channel-Joined_example :
    (after : Server) × (join_channel 9 hello two_connected ≡ returns after)
    × IsConsistent after
    × Joined 9 hello two_connected after
unfolding lookup ℕ_discrete text_dec
join_channel-Joined_example =
    join_channel-Joined 9 104 (105 ∷ []) two_connected (caller 9)
      (is_consistent two_connected two_connected-Served) refl refl

candidates-IsCandidates : IsCandidates libre candidates
candidates-IsCandidates = record {
  large = omega arith;
  small = omega arith;
  kind = refl;
  whole = refl;
}

recv_handler-IsPassedOn_example :
    (after : Server) × (recv_handler libre 7 candidates two_meet ≡ returns after)
    × IsPassedOn 7 candidates meeting two_meet after
unfolding lookup ℕ_discrete text_dec
recv_handler-IsPassedOn_example =
    recv_handler-IsPassedOn libre 7 candidates two_meet (guest 7) meeting
      (is_consistent two_meet two_meet-Served) refl refl refl candidates-IsCandidates

recv_handler-lost_example :
    (after : Server) × (recv_handler libre 7 candidates one_waits ≡ returns after)
    × (after.sent ≡ [])
    × (last : Server) × (recv_handler libre 7 candidates after ≡ returns last)
    × (last.sent ≡ [])
unfolding lookup ℕ_discrete text_dec
recv_handler-lost_example =
    recv_handler-lost libre 7 candidates candidates one_waits (guest 7) waiting
      (is_consistent one_waits one_waits-Served) refl refl refl refl candidates-IsCandidates

-- ===== src/TestClient/Exchanging.antt =====
-- Two clients of the signalling server get each other's candidates, from their first messages on.
use rawr.Common.{ℕ, ◌<◌, ◌≡◌, ◌≢◌, sym, ap, ◌∙◌}
use rawr.Common.{List, [], ◌∷◌, ◌++◌, none, some, returns, length, map, false}
use rawr.Common.{append_assoc}
use rawr.Common.Maps.{contains, set_insert, set_erase}
use rawr.Signaller.{Server, Peer, Channel, no_channel, Text, find_peer, find_channel}
use rawr.Signaller.Handlers.{Mbuf, start_timer, recv_handler, admit_second}
use rawr.Signaller.Seats.{IsConsistent, Stays-trans, start_timer-Stays}
use rawr.Signaller.Joining.{ready}
use rawr.Signaller.Exchange.{to_each}
use rawr.Signaller.Candidates.{recv_handler-IsPassedOn}
use rawr.TestClient.{channel_id_bytes, candidates_bytes}
use rawr.TestClient.Loop.{IsMbuf}
use rawr.Common.{ap₂}
use rawr.Signaller.{text_dec}
use mathlib.Core.List.{lookup}
use rawr.TestClient.Meeting.{recv_handler-Joined, candidates_bytes-IsCandidates, first_opens}
use rawr.TestClient.Meeting.{second_enters, set_erase_first, set_erase_second}

module _ (lib : Mbuf) (reads : IsMbuf lib) (p q c : ℕ) (cs : Text) (apart : p ≢ q)
    (no_zero : contains 0 (c ∷ cs) ≡ false) (short : length (c ∷ cs) < 256) (server : Server)
    (peer_p peer_q : Peer) (k : IsConsistent server) (found_p : find_peer p server ≡ some peer_p)
    (state_p : peer_p.state ≡ no_channel) (found_q : find_peer q server ≡ some peer_q)
    (state_q : peer_q.state ≡ no_channel) (absent : find_channel (c ∷ cs) server ≡ none)
    (offer_p offer_q : List ℕ) (twelve_p : length offer_p ≡ 12)
    (twelve_q : length offer_q ≡ 12) where
  -- Where the reads of libre do what it documents: two different peers of a consistent server, which
  -- have named no channel, name one that is not there, of 1 to 255 characters without a 0, by the
  -- messages of the test client, and each then sends twelve bytes of candidates. The server handles all
  -- four messages to the end. It tells both that the channel is ready, and then sends each of them the
  -- other's candidates, and nothing else to anybody.
  pub recv_handler-exchange :
      (s1 s2 s3 s4 : Server) × (recv_handler lib p (channel_id_bytes (c ∷ cs)) server ≡ returns s1)
      × (recv_handler lib q (channel_id_bytes (c ∷ cs)) s1 ≡ returns s2)
      × (recv_handler lib p (candidates_bytes offer_p) s2 ≡ returns s3)
      × (recv_handler lib q (candidates_bytes offer_q) s3 ≡ returns s4)
      × (s4.sent
          ≡ server.sent
            ++ (map ready (set_insert q (p ∷ []))
                ++ ((q, candidates_bytes offer_p) ∷ (p, candidates_bytes offer_q) ∷ [])))
  recv_handler-exchange =
      let name = c ∷ cs in
      let (s1, e1, k1, joined1) =
        recv_handler-Joined lib reads p c cs server peer_p no_zero short k found_p state_p in
      let (channel1, one, here1, sent1, seated1) =
        first_opens p name (start_timer p server) s1 absent joined1 in
      let (p1, found_p1, p1_state, p1_channel) = seated1.mine in
      let q_ne : q ≢ p = λ e. apart (sym e) in
      let (q1, found_q1, q1_state, _) =
        Stays-trans q server (start_timer p server) s1 (start_timer-Stays p q server)
          (seated1.others q q_ne) peer_q found_q in
      let (s2, e2, k2, joined2) =
        recv_handler-Joined lib reads q c cs s1 q1 no_zero short k1 found_q1 (q1_state ∙ state_q) in
      let (here2, sent2, seated2) =
        second_enters q name (start_timer q s1) s2 channel1 here1 (ap length one) joined2 in
      let members : (admit_second q channel1).peers ≡ set_insert q (p ∷ []) =
        ap (set_insert q) one in
      let (p2, found_p2, p2_state, p2_channel) =
        Stays-trans p s1 (start_timer q s1) s2 (start_timer-Stays q p s1) (seated2.others p apart)
          p1 found_p1 in
      let (q2, found_q2, q2_state, q2_channel) = seated2.mine in
      let (s3, e3, passed3) =
        recv_handler-IsPassedOn lib p (candidates_bytes offer_p) s2 p2 (admit_second q channel1) k2
          found_p2 (p2_state ∙ p1_state)
          (ap (λ t. find_channel t s2) (p2_channel ∙ p1_channel) ∙ here2)
          (candidates_bytes-IsCandidates lib reads offer_p twelve_p) in
      let (q3, found_q3, q3_state, q3_channel) = passed3.others q q_ne q2 found_q2 in
      let here3 : find_channel name s3 ≡ some (admit_second q channel1) =
        ap (λ (l : List (Text × Channel)). lookup text_dec name l) passed3.same_channels ∙ here2 in
      let (s4, e4, passed4) =
        recv_handler-IsPassedOn lib q (candidates_bytes offer_q) s3 q3 (admit_second q channel1)
          passed3.consistent found_q3 (q3_state ∙ q2_state)
          (ap (λ t. find_channel t s3) (q3_channel ∙ q2_channel) ∙ here3)
          (candidates_bytes-IsCandidates lib reads offer_q twelve_q) in
      let to_q : to_each (candidates_bytes offer_p) (set_erase p (admit_second q channel1).peers)
          ≡ (q, candidates_bytes offer_p) ∷ [] =
        ap (λ ids. to_each (candidates_bytes offer_p) (set_erase p ids)) members
        ∙ ap (to_each (candidates_bytes offer_p)) (set_erase_first p q apart) in
      let to_p : to_each (candidates_bytes offer_q) (set_erase q (admit_second q channel1).peers)
          ≡ (p, candidates_bytes offer_q) ∷ [] =
        ap (λ ids. to_each (candidates_bytes offer_q) (set_erase q ids)) members
        ∙ ap (to_each (candidates_bytes offer_q)) (set_erase_second p q apart) in
      let both = map ready (set_insert q (p ∷ [])) in
      let sent_two : s2.sent ≡ server.sent ++ both =
        sent2 ∙ ap₂ (λ a b. a ++ map ready (set_insert q b)) sent1 one in
      let sent_three : s3.sent ≡ (server.sent ++ both) ++ ((q, candidates_bytes offer_p) ∷ []) =
        passed3.to_others ∙ ap₂ ◌++◌ sent_two to_q in
      let sent_four : s4.sent
          ≡ ((server.sent ++ both) ++ ((q, candidates_bytes offer_p) ∷ []))
            ++ ((p, candidates_bytes offer_q) ∷ []) =
        passed4.to_others ∙ ap₂ ◌++◌ sent_three to_p in
      (
        s1,
        s2,
        s3,
        s4,
        e1,
        e2,
        e3,
        e4,
        sent_four
            ∙ append_assoc (server.sent ++ both) ((q, candidates_bytes offer_p) ∷ [])
                ((p, candidates_bytes offer_q) ∷ [])
            ∙ append_assoc server.sent both
                ((q, candidates_bytes offer_p) ∷ (p, candidates_bytes offer_q) ∷ []),
      )

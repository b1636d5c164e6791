-- ===== src/TestClient/Completing.antt =====
-- A client of the signalling server asks for its channel, exchanges candidates in it and closes.
use rawr.Common.{ℕ, suc, ◌-◌, ◌≤◌, ◌≡◌, refl, ap, ◌∙◌, arith, Bool, true, false}
use rawr.Common.{List, [], ◌∷◌, some, returns, length}
use rawr.Common.{leb, length-drop}
use rawr.Signaller.Handlers.{Mbuf}
use rawr.TestClient.{connected, exchanging, completed, Client, sends, counts}
use rawr.TestClient.{channel_id_bytes, candidates_bytes, complete, close_client, end_turn, offer}
use rawr.TestClient.{timer_in_state, timer_handler, on_message, skip_candidates, recv_client}
use rawr.TestClient.Loop.{IsMbuf}

length-zero : (bytes : List ℕ) → length bytes ≡ 0 → bytes ≡ []
length-zero [] e = refl
length-zero (b ∷ bytes) e = absurd (omega (arith, e))

module _ (lib : Mbuf) (reads : IsMbuf lib) where
  length-skip_whole :
      (n : ℕ) (bytes : List ℕ) → n ≤ length bytes → length (lib.skip n bytes) ≡ length bytes - n
  length-skip_whole n bytes fits = ap length (reads.skip-fits n bytes fits) ∙ length-drop n bytes

  -- Two candidates are skipped whole.
  skip_candidates-two : (bytes : List ℕ) → length bytes ≡ 12 → skip_candidates lib 2 bytes ≡ []
  unfolding skip_candidates
  skip_candidates-two bytes twelve =
      let a = lib.skip 4 bytes in
      let b = lib.skip 2 a in
      let c = lib.skip 4 b in
      let la = length-skip_whole 4 bytes (omega (arith, twelve)) in
      let lb = length-skip_whole 2 a (omega (arith, la, twelve)) in
      let lc = length-skip_whole 4 b (omega (arith, lb, la, twelve)) in
      let ld = length-skip_whole 2 c (omega (arith, lc, lb, la, twelve)) in
      length-zero (lib.skip 2 c) (omega (arith, ld, lc, lb, la, twelve))

  recv_client-ready :
      (rounds : ℕ) (client : Client)
      → recv_client lib (suc (suc rounds)) (2 ∷ 0 ∷ []) client
        ≡ some (record client { state = exchanging; timer = true })
  unfolding recv_client on_message
  recv_client-ready rounds client =
      rw (recv_client, reads.read_u8-cons 2 (0 ∷ []), reads.read_u8-cons 0 []) refl

  recv_client-candidates :
      (rounds : ℕ) (bytes : List ℕ) (client : Client)
      → length bytes ≡ 12
      → recv_client lib (suc (suc rounds)) (candidates_bytes bytes) client
        ≡ some (record (complete (record client { candidates_rcvd = true })) { timer = true })
  unfolding recv_client on_message
  recv_client-candidates rounds bytes client twelve =
      rw
        (
          recv_client,
          reads.read_u8-cons 3 (12 ∷ bytes),
          reads.read_u8-cons 12 bytes,
          skip_candidates-two bytes twelve,
        )
        refl

module _ (lib : Mbuf) (reads : IsMbuf lib) (rounds : ℕ) (addresses : ℕ → List ℕ) (sent : Bool)
    (client : Client) (state : client.state ≡ connected) (offers : client.id ≤ 1)
    (held : client.released ≡ false) (unreceived : client.candidates_rcvd ≡ false)
    (unsent : client.candidates_sent ≡ false) (theirs : List ℕ) (twelve : length theirs ≡ 12) where
  -- A connected client that offers candidates, still has its connection, and has neither sent nor
  -- received any, sends the text of its channel at its timer. Once the channel is ready, it sends its
  -- candidates at its timer and receives twelve bytes of others, in either order, and where the sending
  -- succeeds it comes to the same completed client with its timer running. At its timer that client
  -- lets its connection go and is counted. Two rounds of its loop are enough for each message, where
  -- the reads of libre do what it documents.
  pub client-completes :
      (asked told offered got done closed : Client) × (timer_handler addresses sent client
        ≡ returns (asked, sends (channel_id_bytes client.channel_id_string) ∷ []))
      × (recv_client lib (suc (suc rounds)) (2 ∷ 0 ∷ []) asked ≡ some told)
      × (timer_handler addresses true told
          ≡ returns (offered, sends (candidates_bytes (addresses client.id)) ∷ []))
      × (recv_client lib (suc (suc rounds)) (candidates_bytes theirs) offered ≡ some done)
      × (recv_client lib (suc (suc rounds)) (candidates_bytes theirs) told ≡ some got)
      × (timer_handler addresses true got
          ≡ returns (done, sends (candidates_bytes (addresses client.id)) ∷ []))
      × (done.state ≡ completed)
      × (done.timer ≡ true)
      × (timer_handler addresses sent done ≡ returns (closed, counts ∷ []))
      × (closed.released ≡ true)
      × (closed.timer ≡ false)
  unfolding timer_handler timer_in_state offer end_turn close_client
  client-completes =
      let low : leb client.id 1 ≡ true = ground (arith, offers) in
      let asked : Client = record client { timer = false } in
      let told : Client = record client { timer = true; state = exchanging } in
      let offered : Client = record told { candidates_sent = true } in
      let got : Client = record told { candidates_rcvd = true } in
      let done : Client = record told {
        state = completed;
        candidates_rcvd = true;
        candidates_sent = true;
      } in
      let closed : Client = record done { timer = false; released = true } in
      (
        asked,
        told,
        offered,
        got,
        done,
        closed,
        rw (state, held) refl,
        recv_client-ready lib reads rounds asked,
        rw (unsent, low, held, unreceived) refl,
        recv_client-candidates lib reads rounds theirs offered twelve,
        recv_client-candidates lib reads rounds theirs told twelve ∙ rw unsent refl,
        rw (unsent, low, held) refl,
        refl,
        refl,
        rw held refl,
        refl,
        refl,
      )

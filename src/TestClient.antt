-- ===== src/TestClient.antt =====
-- src/signallerTestClient/main.cpp: a client of the signalling server, with the handlers that libre
-- calls for its connection and its timer. How libre reads a buffer, and the bytes of the addresses that
-- a client offers, are arguments.
pub mod Loop
pub mod Meeting
pub mod Exchanging
pub mod Completing
pub mod Counting
pub mod Living
mod Examples
use rawr.Common.{ℕ, zero, suc, ◌+◌, ◌/◌, ◌%◌, Bool, true, false, not, ◌&&◌, List, [], ◌∷◌, ◌++◌}
use rawr.Common.{Option, none, some, leb, ◌==◌, if◌then◌else◌, Outcome, returns, aborts, length}
use rawr.Signaller.{Text}
use rawr.Signaller.Handlers.{Mbuf, channel_id_message, channel_ready_message}
use rawr.Signaller.Handlers.{peer_candidates_message}

-- `ClientState`; `unset` is `ClientState::None`.
pub data ClientState : Type 0 where
  unset connected exchanging completed error : ClientState

-- `SignalClient`: `released` says whether there is no `tcpConn`, never made or let go
-- by `mem_deref`, and `timer` whether
-- `reTimer` runs.
pub record Client : Type 0 where
  pub id : ℕ
  pub released : Bool
  pub timer : Bool
  pub state : ClientState
  pub candidates_rcvd : Bool
  pub candidates_sent : Bool
  pub channel_id_string : Text

-- A message to the server, or one more in `g_clientsCompleted`.
pub data Output : Type 0 where
  sends : List ℕ → Output
  counts : Output

abbrev pub Handled : Type 0
Handled = Outcome (Client × List Output)

-- `close_handler`
unfoldable pub close_client : Client → Handled
close_client client =
    if client.released
    then aborts
    else returns (record client { timer = false; released = true }, counts ∷ [])

-- The messages that a client sends. A text has fewer than 40 characters.
abbrev pub channel_id_bytes : Text → List ℕ
channel_id_bytes name = channel_id_message ∷ length name % 256 ∷ name

abbrev pub candidates_bytes : List ℕ → List ℕ
candidates_bytes addresses = peer_candidates_message ∷ 12 ∷ addresses

-- `client->state = Completed`, where both have happened.
abbrev pub complete : Client → Client
complete client =
    if client.candidates_rcvd && client.candidates_sent
    then record client { state = completed }
    else client

-- The end of the branch for `ClientState::Exchanging`.
unfoldable pub end_turn : Client → List Output → Handled
end_turn client outputs =
    returns (record (complete (record client { candidates_sent = true })) { timer = true }, outputs)

-- After `tcp_send` has failed the client is closed, and the branch goes on.
unfoldable pub offer : List ℕ → Bool → Client → Handled
unfolding end_turn close_client
offer addresses sent client =
    if client.released
    then aborts
    else if sent
    then end_turn client (sends (candidates_bytes addresses) ∷ [])
    else elim (close_client client) [
      | aborts ↦ aborts
      | returns (closed, outputs) ↦ end_turn closed outputs
    ]

-- `timer_handler`, by the state of the client. `addresses` gives the bytes of the two addresses of a
-- client, and `sent` says whether `tcp_send` succeeds, which is looked at for candidates alone.
unfoldable pub timer_in_state : ClientState → (ℕ → List ℕ) → Bool → Client → Handled
unfolding close_client offer end_turn
timer_in_state unset addresses sent client = close_client client
timer_in_state connected addresses sent client =
    if client.released
    then aborts
    else returns (client, sends (channel_id_bytes client.channel_id_string) ∷ [])
timer_in_state exchanging addresses sent client =
    if not client.candidates_sent && leb client.id 1
    then offer (addresses client.id) sent client
    else end_turn client []
timer_in_state completed addresses sent client = close_client client
timer_in_state error addresses sent client = returns (client, [])

unfoldable pub timer_handler : (ℕ → List ℕ) → Bool → Client → Handled
unfolding timer_in_state
timer_handler addresses sent client =
    timer_in_state client.state addresses sent (record client { timer = false })

-- `establish_handler`
unfoldable pub establish_client : Client → Client
establish_client client = record client { state = connected; timer = true }

-- What a message does to the client; `MessageID::Complete` is 4.
unfoldable pub on_message : ℕ → Client → Client
on_message msg_id client =
    if msg_id == channel_ready_message
    then record client { state = exchanging; timer = true }
    else if msg_id == peer_candidates_message
    then record (complete (record client { candidates_rcvd = true })) { timer = true }
    else if msg_id == 4
    then record client { timer = true }
    else client

-- The candidates are read for the log alone, each as four bytes and two.
unfoldable pub skip_candidates : Mbuf → ℕ → List ℕ → List ℕ
skip_candidates lib zero bytes = bytes
skip_candidates lib (suc n) bytes = skip_candidates lib n (lib.skip 2 (lib.skip 4 bytes))

-- `recv_handler`, with so many rounds of its loop; `none` is more rounds than that.
unfoldable pub recv_client : Mbuf → ℕ → List ℕ → Client → Option Client
unfolding on_message skip_candidates
recv_client lib zero bytes client = none
recv_client lib (suc rounds) [] client = some client
recv_client lib (suc rounds) (b ∷ bytes) client =
    let (msg_id, after_id) = lib.read_u8 (b ∷ bytes) in
    let (msg_len, after_len) = lib.read_u8 after_id in
    recv_client lib rounds
      (if msg_id == peer_candidates_message
        then skip_candidates lib (msg_len / 6) after_len
        else after_len)
      (on_message msg_id client)

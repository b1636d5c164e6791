-- ===== src/TestClient/Examples.antt =====
-- Runs of the test client.
use rawr.Common.{ℕ, ◌≡◌, ◌∙◌, refl, ap, arith, Bool-cases, inl, inr, true, false}
use rawr.Common.{List, [], ◌∷◌, some, returns, aborts, length, ◌==◌, leb, if◌then◌else◌}
use rawr.Common.{length-drop, ◌||◌, sym, ◌++◌, map}
use rawr.Signaller.Joining.{ready}
use rawr.Common.Maps.{contains, insert_new, adjust, set_insert}
use rawr.Signaller.{Server, create_peer, hash_from_sock_address, text_dec, Text}
use rawr.Signaller.Handlers.{handle, connects, connect_handler, recv_handler}
use rawr.Signaller.Serving.{Served, serves}
use rawr.Signaller.Examples.{libre, up_to_zero, caller, hello, is_consistent}
use rawr.Signaller.Examples.{one_connected-Served}
use rawr.TestClient.{
  Client, connected, exchanging, completed, counts, sends, timer_handler, recv_client,
}
use rawr.TestClient.{channel_id_bytes, candidates_bytes}
use rawr.TestClient.{Output, establish_client, on_message}
use rawr.TestClient.Counting.{IsCounted}
use rawr.TestClient.Living.{Lives, starts, establishes, hears, Lives-goes_on}
use rawr.Common.{◌⊎◌}
use rawr.TestClient.Loop.{IsMbuf, IsSound, recv_client-ends, timer_handler-twice}
use rawr.TestClient.Exchanging.{recv_handler-exchange}
use rawr.TestClient.Completing.{client-completes}
use mathlib.Core.List.{lookup}
use native.Mathlib.Decide.{ℕ_discrete}

up_to_zero-text : (text : Text) → contains 0 text ≡ false → up_to_zero (length text) text ≡ text
up_to_zero-text [] e = refl
up_to_zero-text (c ∷ cs) e = elim (Bool-cases (c == 0)) [
  | inl zero_first ↦ absurd (grind arith)
  | inr other ↦
      rw other (ap (λ l. c ∷ l) (up_to_zero-text cs (ap (λ b. b || contains 0 cs) (sym other) ∙ e)))
]

libre-IsMbuf : IsMbuf libre
libre-IsMbuf = record {
  read_u8-cons = λ b bytes. refl;
  read_u8-nil = refl;
  length-skip = λ n bytes. elim (Bool-cases (leb n (length bytes))) [
    | inl fits ↦ rw fits (omega (arith, length-drop n bytes))
    | inr short ↦ rw short (omega arith)
  ];
  skip-fits = λ n bytes fits. ground (arith, fits);
  read_str-text = λ text e. ap some (up_to_zero-text text e);
}

abbrev two_callers : Server
two_callers = record { peers = (7, caller 7) ∷ (9, caller 9) ∷ []; channels = []; sent = [] }

two_callers-Served : Served libre two_callers
unfolding handle connect_handler create_peer insert_new adjust hash_from_sock_address lookup
    ℕ_discrete text_dec
two_callers-Served = serves (connects 0 9 true) one_connected-Served refl refl

-- The addresses of `timer_handler`, for each of the two clients that offer any.
abbrev addresses : ℕ → List ℕ
addresses id =
    if id == 0
    then 111 ∷ 111 ∷ 111 ∷ 111 ∷ 4 ∷ 99 ∷ 112 ∷ 112 ∷ 112 ∷ 112 ∷ 8 ∷ 186 ∷ []
    else 113 ∷ 113 ∷ 113 ∷ 113 ∷ 13 ∷ 17 ∷ 114 ∷ 114 ∷ 114 ∷ 114 ∷ 17 ∷ 104 ∷ []

recv_handler-exchange_example :
    (s1 s2 s3 s4 : Server) × (recv_handler libre 7 (channel_id_bytes hello) two_callers
      ≡ returns s1)
    × (recv_handler libre 9 (channel_id_bytes hello) s1 ≡ returns s2)
    × (recv_handler libre 7 (candidates_bytes (addresses 0)) s2 ≡ returns s3)
    × (recv_handler libre 9 (candidates_bytes (addresses 1)) s3 ≡ returns s4)
    × (s4.sent
        ≡ map ready (set_insert 9 (7 ∷ []))
          ++ ((9, candidates_bytes (addresses 0)) ∷ (7, candidates_bytes (addresses 1)) ∷ []))
unfolding lookup ℕ_discrete text_dec
recv_handler-exchange_example =
    recv_handler-exchange libre libre-IsMbuf 7 9 104 (105 ∷ []) (omega arith) refl (omega arith)
      two_callers (caller 7) (caller 9) (is_consistent two_callers two_callers-Served) refl refl
      refl refl refl (addresses 0) (addresses 1) refl refl

-- A client once its connection is there, and one that has only received candidates.
abbrev first_client : Client
first_client = record {
  id = 0;
  released = false;
  timer = true;
  state = connected;
  candidates_rcvd = false;
  candidates_sent = false;
  channel_id_string = hello;
}

abbrev half_way : Client
half_way = record first_client { state = exchanging; candidates_rcvd = true }

half_way-IsSound : IsSound half_way
half_way-IsSound = record { received = λ e. refl; sent = λ e. absurd (cc) }

recv_client-ends_example :
    (after : Client) × (recv_client libre 15 (candidates_bytes (addresses 1)) half_way ≡ some after)
    × IsSound after
recv_client-ends_example =
    recv_client-ends libre libre-IsMbuf 15 (candidates_bytes (addresses 1)) half_way (omega arith)
      half_way-IsSound

timer_handler-twice_example :
    (after : Client) × (timer_handler addresses false half_way ≡ returns (after, counts ∷ []))
    × (after.timer ≡ true)
    × (timer_handler addresses true after ≡ aborts)
timer_handler-twice_example =
    timer_handler-twice addresses true half_way refl (omega arith) refl refl refl

client-completes_example :
    (asked told offered got done closed : Client) × (timer_handler addresses true first_client
      ≡ returns (asked, sends (channel_id_bytes hello) ∷ []))
    × (recv_client libre 2 (2 ∷ 0 ∷ []) asked ≡ some told)
    × (timer_handler addresses true told
        ≡ returns (offered, sends (candidates_bytes (addresses 0)) ∷ []))
    × (recv_client libre 2 (candidates_bytes (addresses 1)) offered ≡ some done)
    × (recv_client libre 2 (candidates_bytes (addresses 1)) told ≡ some got)
    × (timer_handler addresses true got
        ≡ returns (done, sends (candidates_bytes (addresses 0)) ∷ []))
    × (done.state ≡ completed)
    × (done.timer ≡ true)
    × (timer_handler addresses true done ≡ returns (closed, counts ∷ []))
    × (closed.released ≡ true)
    × (closed.timer ≡ false)
client-completes_example =
    client-completes libre libre-IsMbuf 0 addresses true first_client refl (omega arith) refl refl
      refl (addresses 1) refl

-- A client that has been told that its channel is ready.
abbrev told_client : Client
told_client = record first_client { state = exchanging }

told_client-Lives : Lives libre addresses 0 told_client
unfolding establish_client recv_client on_message
told_client-Lives = hears 2 (2 ∷ 0 ∷ []) (establishes (starts true 0 hello) refl) refl refl

Lives-goes_on_example :
    IsCounted 0 told_client
    × ((told_client.timer ≡ false)
        ⊎ ((told_client.released ≡ false)
            × ((after : Client) × (outputs : List Output) × (timer_handler addresses true
                    told_client
                  ≡ returns (after, outputs)))))
Lives-goes_on_example = Lives-goes_on libre addresses 0 told_client told_client-Lives

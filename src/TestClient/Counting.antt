-- ===== src/TestClient/Counting.antt =====
-- What one event makes of a test client, where every send succeeds.
use rawr.Common.{ℕ, zero, suc, ◌+◌, ◌≡◌, refl, sym, ap, ◌∙◌, arith, true, false, Bool-cases}
use rawr.Common.{inl, inr, List, [], ◌∷◌, some, returns, aborts, if◌then◌else◌, leb}
use rawr.Common.{subst, ◌&&◌, not}
use rawr.Signaller.Handlers.{Mbuf}
use rawr.TestClient.{
  ClientState, unset, connected, exchanging, completed, error, Client, Output, Handled,
}
use rawr.TestClient.{
  channel_id_bytes, candidates_bytes, sends, counts, close_client, complete, end_turn, offer,
  timer_in_state, timer_handler,
}
use rawr.TestClient.{on_message, recv_client}
use mathlib.Core.Option.{some_inj}
use rawr.TestClient.Loop.{IsSound, on_message-IsSound}

-- How often a client is counted in `g_clientsCompleted`.
abbrev pub counted : List Output → ℕ
counted [] = 0
counted (sends bytes ∷ outputs) = counted outputs
counted (counts ∷ outputs) = suc (counted outputs)

-- A client that holds its connection has not been counted; one that has let it go has been counted
-- once, and its timer does not run.
pub record IsCounted (n : ℕ) (client : Client) : Type 0 where
  pub once : n ≡ (if client.released then 1 else 0)
  pub silent : client.released ≡ true → client.timer ≡ false
  pub sound : IsSound client

on_message-released :
    (msg_id : ℕ) (client : Client) → (on_message msg_id client).released ≡ client.released
unfolding on_message
on_message-released msg_id client = ground arith

pub recv_client-keeps :
    (lib : Mbuf) (rounds : ℕ) (bytes : List ℕ) (client after : Client)
    → recv_client lib rounds bytes client ≡ some after
    → IsSound client
    → (after.released ≡ client.released) × IsSound after
unfolding recv_client
recv_client-keeps lib zero bytes client after e sound = absurd (cc)
recv_client-keeps lib (suc rounds) [] client after e sound =
    subst (λ c. (c.released ≡ client.released) × IsSound c) (some_inj.0 e) (refl, sound)
recv_client-keeps lib (suc rounds) (b ∷ bytes) client after e sound =
    let msg_id = (lib.read_u8 (b ∷ bytes)).0 in
    let (released, sound') =
      recv_client-keeps lib rounds _ (on_message msg_id client) after e
        (on_message-IsSound msg_id client sound) in
    (released ∙ on_message-released msg_id client, sound')

complete-IsSound :
    (client : Client)
    → IsSound client
    → IsSound (complete (record client { candidates_sent = true }))
complete-IsSound client sound = elim (Bool-cases client.candidates_rcvd) [
  | inl received ↦ rw received (record { received = λ e. refl; sent = λ e. refl })
  | inr unreceived ↦
      rw unreceived (record { received = λ e. sym unreceived ∙ sound.received e; sent = λ e. refl })
]

complete-released : (client : Client) → (complete client).released ≡ client.released
complete-released client = ground arith

-- What an event makes of a client that holds its connection and has not been counted.
abbrev pub Goes : Handled → Type 0
Goes handled =
    (after : Client) × (outputs : List Output) × (handled ≡ returns (after, outputs))
    × IsCounted (counted outputs) after

pub close_client-Goes :
    (client : Client) → client.released ≡ false → IsSound client → Goes (close_client client)
unfolding close_client
close_client-Goes client held sound = (
  record client { timer = false; released = true },
  counts ∷ [],
  rw held refl,
  record {
    once = refl;
    silent = λ e. refl;
    sound = record { received = sound.received; sent = sound.sent };
  },
)

end_turn-Goes :
    (client : Client) (bytes : List Output)
    → counted bytes ≡ 0
    → client.released ≡ false
    → IsSound client
    → Goes (end_turn client bytes)
unfolding end_turn
end_turn-Goes client bytes none_counted held sound =
    let whole = complete-IsSound client sound in
    let still = complete-released (record client { candidates_sent = true }) ∙ held in
    (
      record (complete (record client { candidates_sent = true })) { timer = true },
      bytes,
      refl,
      record {
        once = none_counted ∙ ap (λ b. if b then 1 else 0) (sym still);
        silent = λ e. absurd (cc);
        sound = record { received = whole.received; sent = whole.sent };
      },
    )

offer-sends :
    (bytes : List ℕ) (client : Client)
    → client.released ≡ false
    → offer bytes true client ≡ end_turn client (sends (candidates_bytes bytes) ∷ [])
unfolding offer
offer-sends bytes client held =
    ap (λ b. if b then aborts else end_turn client (sends (candidates_bytes bytes) ∷ [])) held

-- A timer that is up no longer runs.
timer_in_state-Goes :
    (state : ClientState) (addresses : ℕ → List ℕ) (client : Client)
    → client.released ≡ false
    → IsSound client
    → Goes (timer_in_state state addresses true client)
unfolding timer_in_state
timer_in_state-Goes unset addresses client held sound = close_client-Goes client held sound
timer_in_state-Goes connected addresses client held sound = (
  client,
  sends (channel_id_bytes client.channel_id_string) ∷ [],
  rw held refl,
  record {
    once = ap (λ b. if b then 1 else 0) (sym held);
    silent = λ e. absurd (cc);
    sound = sound;
  },
)
timer_in_state-Goes exchanging addresses client held sound =
    elim (Bool-cases (not client.candidates_sent && leb client.id 1)) [
      | inl offers ↦ rw offers (
          subst Goes (sym (offer-sends (addresses client.id) client held)) (
            end_turn-Goes client (sends (candidates_bytes (addresses client.id)) ∷ []) refl held
              sound))
      | inr waits ↦ rw waits (end_turn-Goes client [] refl held sound)
    ]
timer_in_state-Goes completed addresses client held sound = close_client-Goes client held sound
timer_in_state-Goes error addresses client held sound = (
  client,
  [],
  refl,
  record {
    once = ap (λ b. if b then 1 else 0) (sym held);
    silent = λ e. absurd (cc);
    sound = sound;
  },
)

pub timer_handler-Goes :
    (addresses : ℕ → List ℕ) (n : ℕ) (client : Client)
    → IsCounted n client
    → client.timer ≡ true
    → (client.released ≡ false) × (n ≡ 0) × Goes (timer_handler addresses true client)
unfolding timer_handler
timer_handler-Goes addresses n client counted runs = elim (Bool-cases client.released) [
  | inl released ↦ let stopped = counted.silent released in absurd (cc)
  | inr held ↦ (
    held,
    counted.once ∙ ap (λ b. if b then 1 else 0) held,
    timer_in_state-Goes client.state addresses (record client { timer = false }) held
        (record { received = counted.sound.received; sent = counted.sound.sent }),
  )
]

-- The one result of an event.
abbrev result_of : Client × List Output → Handled → Client × List Output
result_of other aborts = other
result_of other (returns result) = result

pub Goes-IsCounted :
    (n : ℕ) (handled : Handled) (after : Client) (outputs : List Output)
    → n ≡ 0
    → Goes handled
    → handled ≡ returns (after, outputs)
    → IsCounted (n + counted outputs) after
Goes-IsCounted n handled after outputs uncounted (found, outs, e, is_counted) e' =
    subst (λ k. IsCounted k after) (omega (arith, uncounted))
      (subst (λ x. IsCounted (counted x.1) x.0) (ap (result_of (after, outputs)) (sym e ∙ e'))
        is_counted)

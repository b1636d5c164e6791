-- ===== src/TestClient/Living.antt =====
-- A test client through its whole life, where every send succeeds.
use rawr.Common.{
  not, Bool, List, [], ◌∷◌, if◌then◌else◌, ℕ, ◌+◌, ◌≡◌, refl, sym, ap, ◌∙◌, true, false, Bool-cases,
}
use rawr.Common.{inl, inr, some, returns}
use rawr.Common.{◌⊎◌}
use rawr.Signaller.{Text}
use rawr.Signaller.Handlers.{Mbuf}
use rawr.TestClient.{counts, unset, Client, Output}
use rawr.TestClient.{close_client, timer_handler}
use rawr.TestClient.{establish_client, recv_client}
use rawr.TestClient.Counting.{counted, IsCounted, recv_client-keeps, close_client-Goes}
use rawr.TestClient.Counting.{timer_handler-Goes, Goes-IsCounted}

-- A client as `launch_timer_handler` makes it, by whether `tcp_connect` succeeds: where it fails there
-- is no connection to hold, and the client is counted at once.
abbrev pub launched : Bool → ℕ → Text → Client × List Output
launched connects id name = (
  record {
    id = id;
    released = not connects;
    timer = false;
    state = unset;
    candidates_rcvd = false;
    candidates_sent = false;
    channel_id_string = name;
  },
  if connects then [] else counts ∷ [],
)

-- The clients that come about, and how often each has been counted: libre calls the handlers of a
-- connection while that is held, and the one of a timer while that runs.
pub data Lives (lib : Mbuf) (addresses : ℕ → List ℕ) : ℕ → Client → Type 0 where
  starts :
      (connects : Bool) (id : ℕ) (name : Text)
      → Lives lib addresses (counted (launched connects id name).1) (launched connects id name).0
  establishes :
      {n : ℕ} {client : Client}
      → Lives lib addresses n client
      → client.released ≡ false
      → Lives lib addresses n (establish_client client)
  hears :
      {n : ℕ} {client after : Client} (rounds : ℕ) (bytes : List ℕ)
      → Lives lib addresses n client
      → client.released ≡ false
      → recv_client lib rounds bytes client ≡ some after
      → Lives lib addresses n after
  is_up :
      {n : ℕ} {client after : Client} {outputs : List Output}
      → Lives lib addresses n client
      → client.timer ≡ true
      → timer_handler addresses true client ≡ returns (after, outputs)
      → Lives lib addresses (n + counted outputs) after
  closes :
      {n : ℕ} {client after : Client} {outputs : List Output}
      → Lives lib addresses n client
      → client.released ≡ false
      → close_client client ≡ returns (after, outputs)
      → Lives lib addresses (n + counted outputs) after

Lives-IsCounted :
    (lib : Mbuf) (addresses : ℕ → List ℕ) (n : ℕ) (client : Client)
    → Lives lib addresses n client
    → IsCounted n client
unfolding establish_client
Lives-IsCounted lib addresses _ _ (starts true id name) = record {
  once = refl;
  silent = λ e. refl;
  sound = record { received = λ e. absurd (cc); sent = λ e. absurd (cc) };
}
Lives-IsCounted lib addresses _ _ (starts false id name) = record {
  once = refl;
  silent = λ e. refl;
  sound = record { received = λ e. absurd (cc); sent = λ e. absurd (cc) };
}
Lives-IsCounted lib addresses n _ (establishes {client = client} lived held) =
    let before = Lives-IsCounted lib addresses n client lived in
    record {
      once = before.once;
      silent = λ e. absurd (cc);
      sound = record { received = λ e. absurd (cc); sent = λ e. absurd (cc) };
    }
Lives-IsCounted lib addresses n after (hears {client = client} rounds bytes lived held e) =
    let before = Lives-IsCounted lib addresses n client lived in
    let (same, sound) = recv_client-keeps lib rounds bytes client after e before.sound in
    record {
      once = before.once ∙ ap (λ b. if b then 1 else 0) (sym same);
      silent = λ r. absurd (cc);
      sound = sound;
    }
Lives-IsCounted lib addresses _ after (is_up {n = n} {client = client} lived runs e) =
    let before = Lives-IsCounted lib addresses n client lived in
    let (_, uncounted, goes) = timer_handler-Goes addresses n client before runs in
    Goes-IsCounted n (timer_handler addresses true client) after _ uncounted goes e
Lives-IsCounted lib addresses _ after (closes {n = n} {client = client} lived held e) =
    let before = Lives-IsCounted lib addresses n client lived in
    Goes-IsCounted n (close_client client) after _ (before.once ∙ ap (λ b. if b then 1 else 0) held)
      (close_client-Goes client held before.sound) e

-- A client comes about from its launch on, by any calls of its handlers in any order and with any
-- messages: libre calls those of the connection while that is held and the one of the timer while that
-- runs, and every send succeeds. Then the client has been counted once if it has let its connection
-- go or has never had one, and not at all if it holds it; it is completed only if it has sent and received candidates; and
-- wherever its timer runs it holds its connection, and the call of the timer returns.
pub Lives-goes_on :
    (lib : Mbuf) (addresses : ℕ → List ℕ) (n : ℕ) (client : Client)
    → Lives lib addresses n client
    → IsCounted n client
      × ((client.timer ≡ false)
          ⊎ ((client.released ≡ false)
              × ((after : Client) × (outputs : List Output) × (timer_handler addresses true client
                    ≡ returns (after, outputs)))))
Lives-goes_on lib addresses n client lived =
    let is_counted = Lives-IsCounted lib addresses n client lived in
    (
      is_counted,
      elim (Bool-cases client.timer) [
        | inl runs ↦
            let (held, _, (after, outputs, e, _)) =
              timer_handler-Goes addresses n client is_counted runs in
            inr (held, (after, outputs, e))
        | inr stopped ↦ inl stopped
      ],
    )

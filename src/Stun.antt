-- ===== src/Stun.antt =====
-- src/Stun.c and include/rawr/Stun.h: the client that asks a STUN server under which address it is
-- seen. What libre answers is an argument; a `struct sa` is read as the endpoint with its bytes.
pub mod Binding
pub mod Setup
mod Examples
use rawr.Common.{ℕ, Bool, true, false, not, ◌||◌, List, [], ◌∷◌, Option, none, some, ltb}
use rawr.Common.{if◌then◌else◌, ErrorCode, success, failure}
use rawr.Endpoint.{Endpoint, set_sock_addr}

-- What a client holds: its memory, the STUN object and the socket of libre.
pub record StunHeld : Type 0 where
  pub client : Bool
  pub re_stun : Bool
  pub udp_sock : Bool

abbrev pub holds_nothing : StunHeld
holds_nothing = record { client = false; re_stun = false; udp_sock = false }

-- `rawr_StunClient_Setup`, by whether the memory, `stun_alloc`, `net_default_source_addr_get` and
-- `udp_listen` are had. Its cleanup releases the memory of the client.
pub stun_setup : Bool → Bool → Bool → Bool → ErrorCode × StunHeld
stun_setup memory allocates finds_source listens =
    if not memory
    then (failure, holds_nothing)
    else if not allocates
    then (failure, holds_nothing)
    else if not finds_source
    then (failure, record holds_nothing { re_stun = true })
    else if not listens
    then (failure, record holds_nothing { re_stun = true })
    else (success, record { client = true; re_stun = true; udp_sock = true })

-- `rawr_StunClient_Cleanup`
pub stun_cleanup : StunHeld → StunHeld
stun_cleanup held = record held { re_stun = false; udp_sock = false; client = false }

-- `rawr_StunClient_LocalEndpoint`, of the source address that the setup found.
pub local_endpoint : Endpoint → Endpoint → ErrorCode × Endpoint
local_endpoint sa_local out_endpoint =
    let (code, endpoint) = set_sock_addr out_endpoint sa_local in
    elim code [ failure ↦ (failure, endpoint) | success ↦ (success, endpoint) ]

-- `struct rawr_StunResponse`
pub record StunResponse : Type 0 where
  pub return_value : ErrorCode
  pub endpoint : Endpoint

-- What libre hands to the response handler: whether there was an error, the status code, and the
-- mapped address, where the message has that attribute.
pub record StunReply : Type 0 where
  pub err : Bool
  pub scode : ℕ
  pub mapped : Option Endpoint

-- From the attribute on.
take_mapped : Option Endpoint → StunResponse → StunResponse
take_mapped none resp = record resp { return_value = failure }
take_mapped (some sa) resp =
    let (code, endpoint) = set_sock_addr resp.endpoint sa in
    elim code [
      | failure ↦ record resp { return_value = failure; endpoint = endpoint }
      | success ↦ record resp { return_value = success; endpoint = endpoint }
    ]

-- `rawr_StunClient_ResponseHandler`. It also ends libre's main loop.
pub response_handler : StunReply → StunResponse → StunResponse
unfolding take_mapped
response_handler reply resp =
    if reply.err || ltb 0 reply.scode
    then record resp { return_value = failure }
    else take_mapped reply.mapped resp

-- An endpoint after `memset`.
abbrev pub zeroed_endpoint : Endpoint
zeroed_endpoint = record {
  af = 0;
  port = 0;
  addr = 0 ∷ 0 ∷ 0 ∷ 0 ∷ [];
  tail = 0 ∷ 0 ∷ 0 ∷ 0 ∷ 0 ∷ 0 ∷ 0 ∷ 0 ∷ 0 ∷ 0 ∷ 0 ∷ 0 ∷ 0 ∷ 0 ∷ 0 ∷ 0 ∷ 0 ∷ 0 ∷ 0 ∷ 0 ∷ [];
}

abbrev pub fresh_response : StunResponse
fresh_response = record { return_value = failure; endpoint = zeroed_endpoint }

-- The main loop, in which the handler is called at most once.
abbrev pub main_loop : Option StunReply → StunResponse → StunResponse
main_loop none resp = resp
main_loop (some reply) resp = response_handler reply resp

-- `rawr_StunClient_BindingRequest`, by whether the server's address is taken, the request is sent, and
-- the main loop returns 0: its result, and what it leaves in `resp`, whose endpoint is the caller's.
pub binding_request : Bool → Bool → Bool → Option StunReply → ErrorCode × StunResponse
unfolding response_handler
binding_request takes_server sends loops reply =
    if not takes_server
    then (failure, fresh_response)
    else if not sends
    then (failure, fresh_response)
    else (if not loops then failure else success, main_loop reply fresh_response)

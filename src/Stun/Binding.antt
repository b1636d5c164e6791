-- ===== src/Stun/Binding.antt =====
-- What a binding request tells its caller.
use rawr.Common.{
  ap, ◌≡◌, refl, inl, inr, true, false, Bool-cases, Option, Option-cases, none, some, ltb,
}
use rawr.Common.{not, ◌&&◌, ◌==◌, if◌then◌else◌, ◌||◌, ErrorCode, success, failure, arith}
use rawr.Endpoint.{Endpoint, is_equal, set_sock_addr}
use rawr.Endpoint.Equality.{is_known, set_sock_addr-known, set_sock_addr-unknown}
use rawr.Stun.{
  StunReply, StunResponse, take_mapped, response_handler, zeroed_endpoint, fresh_response,
  binding_request,
}

-- What the server tells: the mapped address of a reply without an error, where it is of IPv4 or IPv6.
abbrev told_by : StunReply → Option Endpoint → Option Endpoint
told_by reply none = none
told_by reply (some sa) =
    if not reply.err && (reply.scode == 0 && is_known sa) then some sa else none

abbrev pub told : Option StunReply → Option Endpoint
told none = none
told (some reply) = told_by reply reply.mapped

-- What a request leaves where the server tells that, or tells nothing.
abbrev pub Leaves : Option Endpoint → StunResponse → Type 0
Leaves none resp = (resp.return_value ≡ failure) × (resp.endpoint ≡ zeroed_endpoint)
Leaves (some sa) resp = (resp.return_value ≡ success) × (is_equal resp.endpoint sa ≡ true)

take_mapped-known :
    (sa : Endpoint) → is_known sa ≡ true → Leaves (some sa) (take_mapped (some sa) fresh_response)
unfolding take_mapped
take_mapped-known sa known =
    let (taken, same) = set_sock_addr-known zeroed_endpoint sa known in
    rw (take_mapped, taken) (refl, same)

take_mapped-unknown :
    (sa : Endpoint) → is_known sa ≡ false → Leaves none (take_mapped (some sa) fresh_response)
unfolding take_mapped
take_mapped-unknown sa unknown =
    let refused = set_sock_addr-unknown zeroed_endpoint sa unknown in
    let code : (set_sock_addr zeroed_endpoint sa).0 ≡ failure =
      ap (λ (r : ErrorCode × Endpoint). r.0) refused in
    let kept : (set_sock_addr zeroed_endpoint sa).1 ≡ zeroed_endpoint =
      ap (λ (r : ErrorCode × Endpoint). r.1) refused in
    rw (take_mapped, code) (refl, kept)

response_handler-Leaves :
    (reply : StunReply) → Leaves (told (some reply)) (response_handler reply fresh_response)
unfolding response_handler take_mapped
response_handler-Leaves reply = elim (Bool-cases (reply.err || ltb 0 reply.scode)) [
  | inl error ↦
      let nothing : told (some reply) ≡ none = elim (Option-cases reply.mapped) [
        | inl missing ↦ rw missing refl
        | inr (sa, mapped) ↦
            let stops : not reply.err && (reply.scode == 0 && is_known sa) ≡ false =
              ground (arith, error) in
            rw (told, mapped, stops) refl
      ] in
      rw (response_handler, nothing, error) (refl, refl)
  | inr fine ↦ elim (Option-cases reply.mapped) [
    | inl missing ↦ rw (response_handler, fine, missing) (refl, refl)
    | inr (sa, mapped) ↦ elim (Bool-cases (is_known sa)) [
      | inl known ↦
          let tells : not reply.err && (reply.scode == 0 && is_known sa) ≡ true =
            ground (arith, fine, known) in
          rw (response_handler, told, mapped, tells, fine) (take_mapped-known sa known)
      | inr unknown ↦
          let stops : not reply.err && (reply.scode == 0 && is_known sa) ≡ false =
            ground (arith, unknown) in
          rw (response_handler, told, mapped, stops, fine) (take_mapped-unknown sa unknown)
    ]
  ]
]

-- A binding request that was sent, and whose main loop returned 0, succeeds whatever the server
-- replied. Where the reply has no error and a mapped address of IPv4 or IPv6, the handler's own result
-- is a success and the caller's endpoint is equal to that address; after any other reply, and after
-- none, the handler's own result is a failure, which the caller does not see, and the endpoint is
-- zeroed.
pub binding_request-replies :
    (reply : Option StunReply)
    → let r = binding_request true true true reply in (r.0 ≡ success) × Leaves (told reply) r.1
unfolding binding_request
binding_request-replies none = (refl, (refl, refl))
binding_request-replies (some reply) = (refl, response_handler-Leaves reply)

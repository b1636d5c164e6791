-- ===== src/Stun/Examples.antt =====
-- Runs of the STUN client.
use rawr.Common.{◌≡◌, true, false, [], ◌∷◌, some, success}
use rawr.Endpoint.{ipv4, is_equal}
use rawr.Stun.{StunReply, binding_request, zeroed_endpoint}
use rawr.Stun.Binding.{binding_request-replies}

abbrev reply : StunReply
reply = record {
  err = false;
  scode = 0;
  mapped = some (record zeroed_endpoint { af = ipv4; port = 5; addr = 10 ∷ 0 ∷ 0 ∷ 1 ∷ [] });
}

binding_request-replies_example :
    let r = binding_request true true true (some reply) in
    (r.0 ≡ success)
    × ((r.1.return_value ≡ success)
        × (is_equal r.1.endpoint
              (record zeroed_endpoint { af = ipv4; port = 5; addr = 10 ∷ 0 ∷ 0 ∷ 1 ∷ [] })
            ≡ true))
binding_request-replies_example = binding_request-replies (some reply)

-- ===== src/Endpoint/Examples.antt =====
-- Runs of the endpoint functions.
use rawr.Common.{ℕ, ◌+◌, ◌*◌, ◌/◌, ◌%◌, ◌≡◌, refl, arith, true, false, List, [], ◌∷◌}
use rawr.Common.{success, ◌↔◌}
use rawr.Endpoint.{Endpoint, Aws, is4, is6, port, set_bytes, in4, set_in4, is_equal}
use rawr.Endpoint.Access.{IsByteOrder, set_in4-set_bytes}
use rawr.Common.{◌<◌, ◌≤◌, ◌⊎◌, length, returns, aborts}
use rawr.Endpoint.Text.{string_of, dotted}
use rawr.Endpoint.Text.Dotted.{IsQuad, read_numbers, printed, string_of-dotted}
use rawr.Endpoint.Equality.{IsSame, is_equal_iff}

abbrev swap16 : ℕ → ℕ
swap16 n = n % 256 * 256 + n / 256

abbrev swap32 : ℕ → ℕ
swap32 n = n % 256 * 16777216 + n / 256 % 256 * 65536 + n / 65536 % 256 * 256 + n / 16777216

abbrev aws_lib : Aws
aws_lib = record {
  hton16 = swap16;
  ntoh16 = swap16;
  hton32 = swap32;
  ntoh32 = swap32;
  hash = λ bytes. 7;
}

aws_lib-IsByteOrder : IsByteOrder aws_lib
aws_lib-IsByteOrder = record {
  ntoh-hton16 = λ n h. omega arith;
  ntoh-hton32 = λ n h. omega arith;
  hton32_lt = λ n h. omega arith;
}

abbrev eight : List ℕ
eight = 0 ∷ 0 ∷ 0 ∷ 0 ∷ 0 ∷ 0 ∷ 0 ∷ 0 ∷ []

-- 10.0.0.1, port 5060.
abbrev peer : Endpoint
peer = record { af = 2; port = 50195; addr = 10 ∷ 0 ∷ 0 ∷ 1 ∷ []; tail = eight }

abbrev peer6 : Endpoint
peer6 = record { af = 10; port = 50195; addr = 0 ∷ 0 ∷ 0 ∷ 0 ∷ []; tail = 254 ∷ 128 ∷ [] }

peer_set : set_bytes aws_lib peer6 10 0 0 1 5060 ≡ record peer { tail = 254 ∷ 128 ∷ [] }
unfolding set_bytes
peer_set = refl

set_in4-set_bytes_example :
    let after = set_bytes aws_lib peer6 10 0 0 1 5060 in
    (is4 after ≡ true)
    × (is6 after ≡ false)
    × (after.addr ≡ 10 ∷ 0 ∷ 0 ∷ 1 ∷ [])
    × (port aws_lib after ≡ 5060)
    × (in4 aws_lib (set_in4 aws_lib after 3232235777) 0 ≡ (success, 3232235777))
    × (port aws_lib (set_in4 aws_lib after 3232235777) ≡ 5060)
set_in4-set_bytes_example =
    set_in4-set_bytes aws_lib peer6 10 0 0 1 5060 3232235777 0 aws_lib-IsByteOrder (omega arith)
      (omega arith)

is_equal_iff_example : (is_equal peer peer6 ≡ true) ↔ IsSame peer peer6
is_equal_iff_example = is_equal_iff peer peer6

-- 192.168.0.1, port 5060.
abbrev router : Endpoint
router = record { af = 2; port = 50195; addr = 192 ∷ 168 ∷ 0 ∷ 1 ∷ []; tail = [] }

router-IsQuad : IsQuad router 192 168 0 1
router-IsQuad = record {
  family = refl;
  stored = refl;
  low0 = omega arith;
  low1 = omega arith;
  low2 = omega arith;
  low3 = omega arith;
}

abbrev router_text : List ℕ
router_text = dotted 192 168 0 1

string_of-dotted_example :
    (read_numbers 0 router_text ≡ 192 ∷ 168 ∷ 0 ∷ 1 ∷ [])
    × (length router_text ≤ 15)
    × (((length router_text < 64)
          × (string_of swap16 (λ bytes. []) router 64
              ≡ returns (success, 5060, printed router_text 64)))
        ⊎ ((64 ≤ length router_text) × (string_of swap16 (λ bytes. []) router 64 ≡ aborts)))
string_of-dotted_example = string_of-dotted swap16 (λ bytes. []) router 192 168 0 1 64 router-IsQuad

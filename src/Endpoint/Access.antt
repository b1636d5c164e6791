-- ===== src/Endpoint/Access.antt =====
-- The setters of src/Endpoint.c, read back by the getters.
use rawr.Common.{ℕ, ◌^◌, ◌<◌, ◌≡◌, refl, ap, ◌∙◌, arith, true, false}
use rawr.Common.{[], ◌∷◌, success}
use rawr.Endpoint.{
  Endpoint, Aws, set_af, is4, is6, port, set_port, set_bytes, in4, set_in4, number, bytes32,
}

-- What is relied on of the byte order functions: each pair undoes the other on numbers of its width,
-- and a result keeps to the width.
pub record IsByteOrder (aws : Aws) : Type 0 where
  pub ntoh-hton16 : (n : ℕ) → n < 2 ^ 16 → aws.ntoh16 (aws.hton16 n) ≡ n
  pub ntoh-hton32 : (n : ℕ) → n < 2 ^ 32 → aws.ntoh32 (aws.hton32 n) ≡ n
  pub hton32_lt : (n : ℕ) → n < 2 ^ 32 → aws.hton32 n < 2 ^ 32

number-bytes32 : (n : ℕ) → n < 2 ^ 32 → number (bytes32 n) ≡ n
number-bytes32 n h = omega (arith, h)

-- With byte order functions that undo each other, an endpoint that was given four bytes and a
-- 16-bit port is an IPv4 endpoint with that port. A 32-bit number set as its address then is the
-- number read, whatever the caller's variable held, and leaves the port as it was.
pub set_in4-set_bytes :
    (aws : Aws) (endpoint : Endpoint) (b0 b1 b2 b3 given address out : ℕ)
    → IsByteOrder aws
    → given < 2 ^ 16
    → address < 2 ^ 32
    → let after = set_bytes aws endpoint b0 b1 b2 b3 given in
      (is4 after ≡ true)
      × (is6 after ≡ false)
      × (after.addr ≡ b0 ∷ b1 ∷ b2 ∷ b3 ∷ [])
      × (port aws after ≡ given)
      × (in4 aws (set_in4 aws after address) out ≡ (success, address))
      × (port aws (set_in4 aws after address) ≡ given)
unfolding set_bytes is4 is6 port in4 set_in4 set_port set_af
set_in4-set_bytes aws endpoint b0 b1 b2 b3 given address out order h k = (
  refl,
  refl,
  refl,
  order.ntoh-hton16 given h,
  ap (λ n. (success, aws.ntoh32 n))
        (number-bytes32 (aws.hton32 address) (order.hton32_lt address k))
      ∙ ap (λ n. (success, n)) (order.ntoh-hton32 address k),
  order.ntoh-hton16 given h,
)

-- ===== src/Stun/Setup.antt =====
-- What the setup of a STUN client leaves behind.
use rawr.Common.{◌≡◌, refl, Bool, true, false, ◌&&◌, ◌⊎◌, inl, inr, success, failure}
use rawr.Stun.{holds_nothing, stun_setup, stun_cleanup}

-- A setup succeeds exactly where all that it asks for is had. It then holds the client, the STUN object
-- and the socket, and a cleanup leaves nothing. A failed setup leaves the STUN object behind exactly
-- where that was made, and nothing else.
stun_setup-held :
    (memory allocates finds_source listens : Bool)
    → let (code, held) = stun_setup memory allocates finds_source listens in
      ((memory && (allocates && (finds_source && listens))) ≡ true)
        × (code ≡ success)
        × (held ≡ record { client = true; re_stun = true; udp_sock = true })
        × (stun_cleanup held ≡ holds_nothing)
      ⊎ ((memory && (allocates && (finds_source && listens))) ≡ false)
        × (code ≡ failure)
        × (held ≡ record holds_nothing { re_stun = memory && allocates })
unfolding stun_setup stun_cleanup
stun_setup-held true true true true = inl (refl, refl, refl, refl)
stun_setup-held true true true false = inr (refl, refl, refl)
stun_setup-held true true false listens = inr (refl, refl, refl)
stun_setup-held true false finds_source listens = inr (refl, refl, refl)
stun_setup-held false allocates finds_source listens = inr (refl, refl, refl)

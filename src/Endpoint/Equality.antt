-- ===== src/Endpoint/Equality.antt =====
-- `rawr_Endpoint_IsEqual` and `rawr_Endpoint_Hash`.
use rawr.Common.{Bool, ap, ErrorCode, ◌||◌}
use rawr.Common.{ℕ, ◌≡◌, refl, sym, ◌∙◌, arith, true, false, ◌&&◌, List, [], ◌∷◌}
use rawr.Common.{◌==◌, ==_iff, success, failure, ◌⊎◌, ◌↔◌, inl, inr, Bool-cases}
use rawr.Endpoint.{Endpoint, Aws, is4, is6, ipv4, ipv6, is_equal, bytes_eq, set_sock_addr, hash}

==_refl : (n : ℕ) → (n == n) ≡ true
==_refl n = ground arith

pub bytes_eq_refl : (xs : List ℕ) → bytes_eq xs xs ≡ true
bytes_eq_refl [] = refl
bytes_eq_refl (x ∷ xs) = ground (arith, ==_refl x, bytes_eq_refl xs)

pub bytes_eq→eq : (xs ys : List ℕ) → bytes_eq xs ys ≡ true → xs ≡ ys
bytes_eq→eq [] [] h = refl
bytes_eq→eq (x ∷ xs) (y ∷ ys) h =
    let heads : x ≡ y = ground arith in
    let tails : bytes_eq xs ys ≡ true = ground arith in λ i. heads i ∷ bytes_eq→eq xs ys tails i
bytes_eq→eq [] (y ∷ ys) h = ground arith
bytes_eq→eq (x ∷ xs) [] h = ground arith

-- What equality means: the same family, and for IPv4 the same address and port, for IPv6 the same
-- bytes throughout.
pub data IsSame (a b : Endpoint) : Type 0 where
  same4 : a.af ≡ ipv4 → b.af ≡ ipv4 → a.addr ≡ b.addr → a.port ≡ b.port → IsSame a b
  same6 : a.af ≡ ipv6 → a ≡ b → IsSame a b

-- Two endpoints compare equal exactly when both are IPv4 with the same address and port, or both
-- are IPv6 and all their bytes agree.
pub is_equal_iff : (a b : Endpoint) → (is_equal a b ≡ true) ↔ IsSame a b
unfolding is_equal is4 is6
is_equal_iff a b = (means, compares)
  where
    equal6 :
        b.af ≡ a.af
        → (((a.port == b.port) && (bytes_eq a.addr b.addr && bytes_eq a.tail b.tail)) ≡ true)
        → a ≡ b
    equal6 family all =
        let ports : a.port ≡ b.port = ground arith in
        let addrs : bytes_eq a.addr b.addr ≡ true = ground arith in
        let tails : bytes_eq a.tail b.tail ≡ true = ground arith in
        λ i. record {
          af = sym family i;
          port = ports i;
          addr = bytes_eq→eq a.addr b.addr addrs i;
          tail = bytes_eq→eq a.tail b.tail tails i;
        }

    means : is_equal a b ≡ true → IsSame a b
    means h = elim (Bool-cases (b.af == a.af)) [
      | inr differs ↦ absurd (ground arith)
      | inl family ↦
          let same : b.af ≡ a.af = (==_iff b.af a.af).0 family in
          elim (Bool-cases (b.af == ipv6)) [
            | inl six ↦ same6 (sym same ∙ (==_iff b.af ipv6).0 six) (equal6 same (ground arith))
            | inr not_six ↦ elim (Bool-cases (b.af == ipv4)) [
              | inl four ↦
                  let v4 : b.af ≡ ipv4 = (==_iff b.af ipv4).0 four in
                  let addrs : bytes_eq b.addr a.addr ≡ true = ground arith in
                  same4 (sym same ∙ v4) v4 (sym (bytes_eq→eq b.addr a.addr addrs)) (ground arith)
              | inr neither ↦ absurd (ground arith)
            ]
          ]
    ]

    compares : IsSame a b → is_equal a b ≡ true
    compares (same4 a4 b4 addrs ports) =
        rw (a4, b4, addrs, ports) (ground (arith, bytes_eq_refl b.addr, ==_refl b.port))
    compares (same6 a6 whole) =
        rw (sym whole, a6)
          (ground (arith, bytes_eq_refl a.addr, bytes_eq_refl a.tail, ==_refl a.port))

-- A socket address that is taken over compares equal to its source. Any other is refused, leaves the
-- endpoint as it was, and does not compare equal to itself.
pub is_equal-set_sock_addr :
    (endpoint sockaddr : Endpoint)
    → ((set_sock_addr endpoint sockaddr).0 ≡ success)
        × (is_equal (set_sock_addr endpoint sockaddr).1 sockaddr ≡ true)
      ⊎ (set_sock_addr endpoint sockaddr ≡ (failure, endpoint))
        × (is_equal sockaddr sockaddr ≡ false)
unfolding set_sock_addr is_equal is4 is6
is_equal-set_sock_addr endpoint sockaddr = elim (Bool-cases (sockaddr.af == ipv4)) [
  | inl four ↦
      let v4 : sockaddr.af ≡ ipv4 = (==_iff sockaddr.af ipv4).0 four in
      inl (rw v4 refl, rw v4 (ground (arith, bytes_eq_refl sockaddr.addr, ==_refl sockaddr.port)))
  | inr not_four ↦ elim (Bool-cases (sockaddr.af == ipv6)) [
    | inl six ↦
        let v6 : sockaddr.af ≡ ipv6 = (==_iff sockaddr.af ipv6).0 six in
        inl (
          rw v6 refl,
          rw v6 (
              ground (
                arith,
                bytes_eq_refl sockaddr.addr,
                bytes_eq_refl sockaddr.tail,
                ==_refl sockaddr.port,
              )),
        )
    | inr neither ↦ inr (rw (not_four, neither) refl, ground arith)
  ]
]

-- Of two IPv6 endpoints with the same flow information the hashes are the same, whatever their
-- addresses and ports are.
hash-flow :
    (aws : Aws) (a b : Endpoint)
    → a.af ≡ ipv6
    → b.af ≡ ipv6
    → a.addr ≡ b.addr
    → hash aws a ≡ hash aws b
unfolding hash is4 is6
hash-flow aws a b a6 b6 flow = rw (a6, b6, flow) refl

-- Of IPv4 or IPv6.
abbrev pub is_known : Endpoint → Bool
is_known sockaddr = (sockaddr.af == ipv4) || (sockaddr.af == ipv6)

-- Such an address is taken over, and any other is refused.
pub set_sock_addr-known :
    (endpoint sockaddr : Endpoint)
    → is_known sockaddr ≡ true
    → ((set_sock_addr endpoint sockaddr).0 ≡ success)
      × (is_equal (set_sock_addr endpoint sockaddr).1 sockaddr ≡ true)
unfolding set_sock_addr
set_sock_addr-known endpoint sockaddr known = elim (is_equal-set_sock_addr endpoint sockaddr) [
  | inl taken ↦ taken
  | inr (refused, _) ↦
      let code : (set_sock_addr endpoint sockaddr).0 ≡ failure =
        ap (λ (r : ErrorCode × Endpoint). r.0) refused in
      absurd (ground (arith, known, code))
]

pub set_sock_addr-unknown :
    (endpoint sockaddr : Endpoint)
    → is_known sockaddr ≡ false
    → set_sock_addr endpoint sockaddr ≡ (failure, endpoint)
unfolding set_sock_addr
set_sock_addr-unknown endpoint sockaddr unknown = ground (arith, unknown)

-- ===== src/Endpoint.antt =====
-- src/Endpoint.c and include/rawr/Endpoint.h: the address and port of a peer, for IPv4 and IPv6. The
-- union has 28 bytes; the layout is that of Linux on a little-endian machine. The byte order
-- functions and the hash of aws-c-common are arguments.
pub mod Access
pub mod Equality
pub mod Text
mod Examples
use rawr.Common.{ℕ, zero, suc, ◌+◌, ◌*◌, ◌/◌, ◌%◌, ◌^◌, ◌≡◌, Bool, true, false, not, ◌&&◌, ◌||◌}
use rawr.Common.{
  List, [], ◌∷◌, ◌++◌, take, drop, ◌==◌, if◌then◌else◌, ErrorCode, success, failure, u16,
}

-- `addr` is `addr4.addr`, which `addr6.flowinfo` shares; `tail` is `addr4.pad` and what `addr6` has
-- beyond it, the address from its start on.
pub record Endpoint : Type 0 where
  pub af : ℕ
  pub port : ℕ
  pub addr : List ℕ
  pub tail : List ℕ

-- What aws-c-common does to the bytes of a number, and its hash of an array.
pub record Aws : Type 0 where
  pub hton16 : ℕ → ℕ
  pub ntoh16 : ℕ → ℕ
  pub hton32 : ℕ → ℕ
  pub ntoh32 : ℕ → ℕ
  pub hash : List ℕ → ℕ

-- `rawr_SockAF`
abbrev pub ipv4 : ℕ
ipv4 = 2

abbrev pub ipv6 : ℕ
ipv6 = 10

-- A number in memory, lowest byte first, and back.
abbrev pub bytes16 : ℕ → List ℕ
bytes16 n = n % 256 ∷ n / 256 % 256 ∷ []

abbrev pub bytes32 : ℕ → List ℕ
bytes32 n = n % 256 ∷ n / 256 % 256 ∷ n / 65536 % 256 ∷ n / 16777216 % 256 ∷ []

abbrev pub number : List ℕ → ℕ
number [] = 0
number (byte ∷ bytes) = byte + 256 * number bytes

pub set_af : Endpoint → ℕ → Endpoint
set_af endpoint af = record endpoint { af = u16 af }

pub is4 : Endpoint → Bool
is4 endpoint = endpoint.af == ipv4

pub is6 : Endpoint → Bool
is6 endpoint = endpoint.af == ipv6

-- The first 16 bytes of the source are copied for IPv4, all 28 for IPv6.
pub set_sock_addr : Endpoint → Endpoint → ErrorCode × Endpoint
set_sock_addr endpoint sockaddr =
    if sockaddr.af == ipv4
    then (success, record sockaddr { tail = take 8 sockaddr.tail ++ drop 8 endpoint.tail })
    else if sockaddr.af == ipv6
    then (success, sockaddr)
    else (failure, endpoint)

pub port : Aws → Endpoint → ℕ
port aws endpoint = aws.ntoh16 endpoint.port

pub set_port : Aws → Endpoint → ℕ → Endpoint
set_port aws endpoint port = record endpoint { port = aws.hton16 port }

-- The shorts are those of the address, from its start on.
pub set_shorts : Aws → Endpoint → ℕ → List ℕ → Endpoint
unfolding set_af set_port
set_shorts aws endpoint port shorts =
    let ready = set_port aws (set_af endpoint ipv6) port in
    record ready { tail = written shorts ++ drop 16 endpoint.tail }
  where
    written : List ℕ → List ℕ
    written [] = []
    written (short ∷ rest) = bytes16 (aws.hton16 short) ++ written rest

pub set_bytes : Aws → Endpoint → ℕ → ℕ → ℕ → ℕ → ℕ → Endpoint
unfolding set_af set_port
set_bytes aws endpoint b0 b1 b2 b3 port = record (set_port aws (set_af endpoint ipv4) port) {
  addr = b0 ∷ b1 ∷ b2 ∷ b3 ∷ [];
}

-- `rawr_Endpoint_In4`, with what it stores through `out_in4` when it succeeds.
pub in4 : Aws → Endpoint → ℕ → ErrorCode × ℕ
unfolding is4
in4 aws endpoint out_in4 =
    if not (is4 endpoint) then (failure, out_in4) else (success, aws.ntoh32 (number endpoint.addr))

pub set_in4 : Aws → Endpoint → ℕ → Endpoint
unfolding is4
set_in4 aws endpoint in4 =
    if not (is4 endpoint) then endpoint else record endpoint { addr = bytes32 (aws.hton32 in4) }

abbrev pub bytes_eq : List ℕ → List ℕ → Bool
bytes_eq [] [] = true
bytes_eq (x ∷ xs) (y ∷ ys) = (x == y) && bytes_eq xs ys
bytes_eq [] (y ∷ ys) = false
bytes_eq (x ∷ xs) [] = false

-- For IPv6 all bytes are compared, for IPv4 the address and the port; other families are never equal.
pub is_equal : Endpoint → Endpoint → Bool
unfolding is4 is6
is_equal endpoint addr =
    if not (addr.af == endpoint.af)
    then false
    else if is6 addr
    then (endpoint.port == addr.port)
      && (bytes_eq endpoint.addr addr.addr && bytes_eq endpoint.tail addr.tail)
    else if is4 addr
    then bytes_eq addr.addr endpoint.addr && (addr.port == endpoint.port)
    else false

-- The bytes of the union.
abbrev pub bytes : Endpoint → List ℕ
bytes endpoint = bytes16 endpoint.af ++ (bytes16 endpoint.port ++ (endpoint.addr ++ endpoint.tail))

-- `rawr_Endpoint_Hash`. The port is masked with 0, so that it never counts.
pub hash : Aws → Endpoint → ErrorCode × ℕ
unfolding is4 is6
hash aws endpoint =
    if is4 endpoint
    then (success, aws.hash (bytes endpoint))
    else if is6 endpoint
    then (success, number endpoint.addr)
    else (failure, 0)

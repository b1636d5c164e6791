-- ===== src/Signaller/Ids.antt =====
-- `hashFromSockAddress` of src/signaller/PeerManager.cpp: connections have ids of their own.
use rawr.Common.{ℕ, ◌^◌, ◌<◌, ◌≡◌, arith}
use rawr.Signaller.{hash_from_sock_address}

-- Two addresses with one id are one: the id keeps the whole port and the whole IPv4 address, within
-- 64 bits.
hash_from_sock_address-inj :
    (port ip port' ip' : ℕ)
    → port < 2 ^ 16
    → ip < 2 ^ 32
    → port' < 2 ^ 16
    → ip' < 2 ^ 32
    → hash_from_sock_address port ip ≡ hash_from_sock_address port' ip'
    → (port ≡ port') × (ip ≡ ip')
unfolding hash_from_sock_address
hash_from_sock_address-inj port ip port' ip' a b c d e = (omega arith, omega arith)

-- ===== src/SocketSubsystem.antt =====
-- src/SocketSubsystem/InternetAddr.cpp and SocketSubsystem.cpp: addresses, and the making of sockets.
-- The byte order functions are those of a host that stores the low byte first, as all platforms of the
-- program do.
pub mod Reading
mod Examples
use rawr.Common.{ℕ, ◌+◌, ◌*◌, ◌/◌, ◌%◌, Bool, true, false, Option, none, some}

-- `htons` and `ntohs`, of 16 bits.
unfoldable pub swap_short : ℕ → ℕ
swap_short x = x % 256 * 256 + x / 256 % 256

-- `htonl` and `ntohl`, of 32 bits.
unfoldable pub swap_long : ℕ → ℕ
swap_long x =
    x % 256 * 16777216 + x / 256 % 256 * 65536 + x / 65536 % 256 * 256 + x / 16777216 % 256

-- `FInternetAddr`: the port and the address of `m_sockaddr`, each as the number that the host reads
-- where they are stored.
pub record InternetAddr : Type 0 where
  pub sin_port : ℕ
  pub sin_addr : ℕ

-- After `memset` in the constructor.
abbrev pub new_addr : InternetAddr
new_addr = record { sin_port = 0; sin_addr = 0 }

unfoldable pub set_ip : ℕ → InternetAddr → InternetAddr
unfolding swap_long
set_ip addr in_addr = record in_addr { sin_addr = swap_long addr }

-- The four bytes that `inet_pton` finds in a text, in the order of the text.
pub record Dotted : Type 0 where
  pub first : ℕ
  pub second : ℕ
  pub third : ℕ
  pub fourth : ℕ

-- `SetIp` of a text, with `bIsValid`: `inet_pton` returns 1 where it finds an address and stores its
-- bytes, and 0 where there is none.
unfoldable pub set_ip_text : Option Dotted → InternetAddr → Bool × InternetAddr
set_ip_text none in_addr = (true, in_addr)
set_ip_text (some d) in_addr = (
  false,
  record in_addr { sin_addr = d.first + 256 * d.second + 65536 * d.third + 16777216 * d.fourth },
)

unfoldable pub get_ip : InternetAddr → ℕ
unfolding swap_long
get_ip in_addr = swap_long in_addr.sin_addr

-- The port is the 32-bit pattern of an `int32`.
unfoldable pub set_port : ℕ → InternetAddr → InternetAddr
unfolding swap_short
set_port port in_addr = record in_addr { sin_port = swap_short (port % 65536) }

unfoldable pub get_port : InternetAddr → ℕ
unfolding swap_short
get_port in_addr = swap_short in_addr.sin_port

-- `INADDR_ANY`
unfoldable pub set_any_address : InternetAddr → InternetAddr
set_any_address in_addr = record in_addr { sin_addr = 0 }

-- `INADDR_BROADCAST`, 0xffffffff
unfoldable pub set_broadcast_address : InternetAddr → InternetAddr
set_broadcast_address in_addr = record in_addr { sin_addr = 4294967295 }

-- `INADDR_LOOPBACK`, 0x7f000001
unfoldable pub set_loopback_address : InternetAddr → InternetAddr
set_loopback_address in_addr = record in_addr { sin_addr = 2130706433 }

-- `ESocketType`
pub data SocketType : Type 0 where
  unknown datagram streaming : SocketType

-- What `socket` is asked for, by its type and its protocol.
pub data Transport : Type 0 where
  udp tcp : Transport

-- `CreateSocket`: `socket` gives the descriptor, as its 64-bit pattern, or that of -1 where there is
-- none, and the pattern is kept in the new `FSocket` either way.
unfoldable pub create_socket : (Transport → ℕ) → SocketType → Option ℕ
create_socket socket unknown = none
create_socket socket datagram = some (socket udp)
create_socket socket streaming = some (socket udp)

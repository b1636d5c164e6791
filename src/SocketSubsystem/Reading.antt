-- ===== src/SocketSubsystem/Reading.antt =====
-- What is read from an address after any calls of its setters.
use rawr.Common.{ℕ, ◌+◌, ◌*◌, ◌%◌, ◌<◌, ◌≡◌, refl, ap, ◌∙◌, arith}
use rawr.Common.{List, [], ◌∷◌, Option, none, some}
use rawr.SocketSubsystem.{InternetAddr, Dotted, swap_short, swap_long, set_ip, set_ip_text, get_ip}
use rawr.SocketSubsystem.{set_port, get_port, set_any_address, set_broadcast_address}
use rawr.SocketSubsystem.{set_loopback_address}

swap_short-swap_short : (x : ℕ) → x < 65536 → swap_short (swap_short x) ≡ x
unfolding swap_short
swap_short-swap_short x small = omega (arith, small)

swap_long-swap_long : (x : ℕ) → x < 4294967296 → swap_long (swap_long x) ≡ x
unfolding swap_long
swap_long-swap_long x small = omega (arith, small)

swap_long-dotted :
    (a b c d : ℕ)
    → a < 256
    → b < 256
    → c < 256
    → d < 256
    → swap_long (a + 256 * b + 65536 * c + 16777216 * d) ≡ a * 16777216 + b * 65536 + c * 256 + d
unfolding swap_long
swap_long-dotted a b c d e f g h = omega (arith, e, f, g, h)

-- A call of a setter.
pub data Setting : Type 0 where
  to_number : ℕ → Setting
  to_text : Option Dotted → Setting
  to_port : ℕ → Setting
  to_any to_broadcast to_loopback : Setting

unfoldable pub set : Setting → InternetAddr → InternetAddr
set (to_number addr) in_addr = set_ip addr in_addr
set (to_text text) in_addr = (set_ip_text text in_addr).1
set (to_port port) in_addr = set_port port in_addr
set to_any in_addr = set_any_address in_addr
set to_broadcast in_addr = set_broadcast_address in_addr
set to_loopback in_addr = set_loopback_address in_addr

unfoldable pub set_all : List Setting → InternetAddr → InternetAddr
unfolding set
set_all [] in_addr = in_addr
set_all (setting ∷ settings) in_addr = set_all settings (set setting in_addr)

-- An address of 32 bits, and bytes of a text.
abbrev pub Fits : Setting → Type 0
Fits (to_number addr) = addr < 4294967296
Fits (to_text none) = Unit
Fits (to_text (some d)) = (d.first < 256) × (d.second < 256) × (d.third < 256) × (d.fourth < 256)
Fits (to_port port) = Unit
Fits to_any = Unit
Fits to_broadcast = Unit
Fits to_loopback = Unit

abbrev pub AllFit : List Setting → Type 0
AllFit [] = Unit
AllFit (setting ∷ settings) = Fits setting × AllFit settings

-- An address and a port as a caller sees them.
pub record HostAddr : Type 0 where
  pub ip : ℕ
  pub port : ℕ

abbrev pub host_of : InternetAddr → HostAddr
host_of in_addr = record { ip = get_ip in_addr; port = get_port in_addr }

-- What a setter does to them: a text stands for the number of its bytes, the first the highest, and the
-- loopback address turns out as 1.0.0.127.
abbrev pub expect : Setting → HostAddr → HostAddr
expect (to_number addr) host = record host { ip = addr }
expect (to_text none) host = host
expect (to_text (some d)) host = record host {
  ip = d.first * 16777216 + d.second * 65536 + d.third * 256 + d.fourth;
}
expect (to_port port) host = record host { port = port % 65536 }
expect to_any host = record host { ip = 0 }
expect to_broadcast host = record host { ip = 4294967295 }
expect to_loopback host = record host { ip = 16777343 }

abbrev pub expect_all : List Setting → HostAddr → HostAddr
expect_all [] host = host
expect_all (setting ∷ settings) host = expect_all settings (expect setting host)

host_of-set :
    (setting : Setting) (in_addr : InternetAddr)
    → Fits setting
    → host_of (set setting in_addr) ≡ expect setting (host_of in_addr)
unfolding set set_ip set_ip_text get_ip set_port get_port set_any_address set_broadcast_address
    set_loopback_address swap_long
host_of-set (to_number addr) in_addr fits =
    ap (λ n. record (host_of in_addr) { ip = n }) (swap_long-swap_long addr fits)
host_of-set (to_text none) in_addr fits = refl
host_of-set (to_text (some d)) in_addr (a, b, c, e) =
    ap (λ n. record (host_of in_addr) { ip = n })
      (swap_long-dotted d.first d.second d.third d.fourth a b c e)
host_of-set (to_port port) in_addr fits =
    ap (λ n. record (host_of in_addr) { port = n })
      (swap_short-swap_short (port % 65536) (omega arith))
host_of-set to_any in_addr fits = refl
host_of-set to_broadcast in_addr fits = refl
host_of-set to_loopback in_addr fits = refl

-- After any calls of the setters, with numbers of 32 bits and texts of four bytes, the address and the
-- port that are read are what the last of them that set it says, in the order of the host: a number as
-- it was given, a text as the number of its bytes, a port modulo 2^16, and 0 and 2^32 - 1 for the any
-- and the broadcast address. Setting one leaves the other as it was, and a text that is no address
-- changes nothing. Only the loopback address is not read as 127.0.0.1: it reads as 1.0.0.127.
pub set_all-reads :
    (settings : List Setting) (in_addr : InternetAddr)
    → AllFit settings
    → host_of (set_all settings in_addr) ≡ expect_all settings (host_of in_addr)
unfolding set_all
set_all-reads [] in_addr fit = refl
set_all-reads (setting ∷ settings) in_addr (fits, fit) =
    set_all-reads settings (set setting in_addr) fit
    ∙ ap (expect_all settings) (host_of-set setting in_addr fits)

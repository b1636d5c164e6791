-- ===== src/SocketSubsystem/Examples.antt =====
-- Runs of the addresses.
use rawr.Common.{ℕ, ◌≡◌, [], ◌∷◌, some, none, refl}
use rawr.Common.{arith}
use rawr.SocketSubsystem.{new_addr, Dotted, streaming, create_socket, Transport, udp}
use rawr.SocketSubsystem.Reading.{to_text, to_port, to_loopback, host_of, set_all}
use rawr.SocketSubsystem.Reading.{set_all-reads}

-- A UDP socket is made where a TCP socket is asked for.
create_socket-streaming :
    (socket : Transport → ℕ) → create_socket socket streaming ≡ some (socket udp)
unfolding create_socket
create_socket-streaming socket = refl

abbrev server : Dotted
server = record { first = 10; second = 0; third = 0; fourth = 7 }

set_all-reads_example :
    host_of
      (set_all (to_loopback ∷ to_port 70000 ∷ to_text (some server) ∷ to_text none ∷ []) new_addr)
    ≡ record { ip = 167772167; port = 4464 }
set_all-reads_example =
    set_all-reads (to_loopback ∷ to_port 70000 ∷ to_text (some server) ∷ to_text none ∷ []) new_addr
      (tt, (tt, ((omega arith, omega arith, omega arith, omega arith), (tt, tt))))

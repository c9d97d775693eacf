-- ===== src/Server/Steps.antt =====
-- The three threads of the device as one relation: each step is one round of one of their loops
-- (src/apps/RSServerCommunication.cpp, RSRouter.cpp, RSDNSServer.cpp).
use labyrinthus.Base.Words.{int_limit}
use labyrinthus.Base.{length, ◌<◌, ℕ, ◌≡◌, Bytes, Bool, true, List, done}
use labyrinthus.Socket.Packet.{Socket, SockAddr, Event, receive_packet}
use labyrinthus.Server.State.{Server}
use labyrinthus.Server.Receiver.{handle_packet}
use labyrinthus.Server.Requests.{dns_datagram}
use labyrinthus.Server.Tunnel.{tunnel_packet}
use labyrinthus.Server.Start.{main_state, on_device_connect}

-- What arrives, the time and the random numbers are the environment's.
pub data Step (written : Bytes → Bool) (s s' : Server) : Type 0 where
  connect : on_device_connect s ≡ done s' → Step written s s'
  packet :
      (k : Socket) (events rest : List Event)
      → receive_packet s.rsock events ≡ done (k, true, rest)
      → handle_packet written (record s { rsock = k }) ≡ done s'
      → Step written s s'
  request :
      (now u : ℕ) (sa buffer : Bytes) → dns_datagram s now u sa buffer ≡ done s' → Step written s s'
  tunnelled :
      (now : ℕ) (rands : ℕ → ℕ) (buffer : Bytes)
      → tunnel_packet written now rands s buffer ≡ done s'
      → Step written s s'

-- The states that the program comes to; the buffer is of `buff_maxlen` bytes, an int.
pub data Reach (written : Bytes → Bool) : Server → Type 0 where
  start :
      {s : Server} (sin : SockAddr) (slen : ℕ) (buff : Bytes)
      → length buff < int_limit
      → main_state true sin slen buff ≡ done s
      → Reach written s
  next : {r s : Server} → Reach written r → Step written r s → Reach written s

-- ===== src/Server/Start.antt =====
-- How the device starts: `main`, `allocateClientObject` (src/apps/RSServerCommunication.cpp), and the
-- constructor of the socket (src/sockets/rs_socket.cpp).
use labyrinthus.Base.{
  ℕ, zero, suc, ◌+◌, ◌%◌, Bytes, Bool, true, List, [], ◌∷◌, none, Run, done, exited, ◌>>=◌, set,
  codes, if◌then◌else◌,
}
use labyrinthus.Defines.Table.{create_rss_object_with_type, users_subnet_major, users_subnet_minor}
use labyrinthus.Address.Binding.{first_binded}
use labyrinthus.Object.Access.{set_uint_object_by_name}
use labyrinthus.Defines.Cmd
use labyrinthus.Socket.Packet.{send_to_route_server, Socket, SockAddr}
use labyrinthus.Server.State.{Server, ClientObject, unused}

-- The constructor, by whether `create_udp_socket` succeeds, and what memory it gets
unfoldable pub new_socket : Bool → SockAddr → ℕ → Bytes → Run Socket
new_socket opened sin slen buff =
    if opened
    then done (record {
      is_open = true;
      sin_tmp = sin;
      slen_tmp = slen;
      buffer = buff;
      rso_data = none;
      sent = [];
    })
    else exited

unfoldable pub allocate_client_object : Run ClientObject
allocate_client_object = do
  os ← create_rss_object_with_type (codes "chains_t")
  done (record {
    local_unique_identifier = [];
    local_domain = [];
    chains = os;
    local_addr = set (set (0 ∷ 0 ∷ 0 ∷ 1 ∷ []) 0 users_subnet_major) 1 users_subnet_minor;
    traffic_key = [];
    client_state = unused;
    last_activity_time = 0;
  })

-- The loop of `main`, with as many clients to go, from the number `i`
unfoldable pub allocate_clients : ℕ → ℕ → Run (List ClientObject)
allocate_clients zero i = done []
allocate_clients (suc left) i = do
  co ← allocate_client_object
  rest ← allocate_clients left (suc i)
  done (record co { local_addr = set co.local_addr 3 ((i + 1) % 256) } ∷ rest)

abbrev pub max_clients : ℕ
max_clients = 250

-- The state when the threads start
unfoldable pub main_state : Bool → SockAddr → ℕ → Bytes → Run Server
main_state opened sin slen buff = do
  clients ← allocate_clients max_clients 0
  socket ← new_socket opened sin slen buff
  done (record {
    rsock = socket;
    my_address = none;
    registred_clients = clients;
    devices = [];
    binded_chains = [];
    binded_ip = first_binded;
    dns_requests = [];
    dns_sent = [];
    tun = [];
  })

-- `onDeviceConnect`, which `device_thread_function` calls before `receiver`
unfoldable pub on_device_connect : Server → Run Server
on_device_connect s = do
  o ← create_rss_object_with_type (codes "onDeviceConnectRequest")
  o' ← set_uint_object_by_name o (codes "transmission_rate") 0xAAEBDA
  r ← send_to_route_server s.rsock Cmd.ondeviceconnect_request o'
  done (record s { rsock = r.0 })

-- ===== src/Tests/Routes.antt =====
-- The routing of packets at concrete inputs.
use labyrinthus.Server.Peeling.{forward_short}
use labyrinthus.Base.{fault}
use labyrinthus.Base.{
  ℕ, ◌≡◌, refl, Bytes, Bool, true, [], ◌∷◌, ◌++◌, some, none, done, arith, codes,
}
use labyrinthus.Object.Value.{Object, nil, push_back}
use labyrinthus.Object.Encode.{encode}
use labyrinthus.Object.Access.{compare, object_by_name}
use labyrinthus.Defines.AddrType
use labyrinthus.Defines.Encryption
use labyrinthus.Defines.Objects.{address, chains, client_data, data_packet, get_chains_response}
use labyrinthus.Checksum.Crc.{get_crc, crc_loop}
use labyrinthus.Checksum.InternetSum.{ip_sum}
use labyrinthus.Server.State.{Server, ClientObject, BindedChain, registred}
use labyrinthus.Server.Onion.{make_and_append_chain, random_device}
use labyrinthus.Server.Bindings.{find_binded}
use labyrinthus.Server.Routing.{apply_and_route_rss_packet, find_client, ip_header}
use labyrinthus.Server.Peeling.{layer}
use labyrinthus.Server.Journey.{Travels}
use labyrinthus.Server.Arrival.{client_receives}
use labyrinthus.Server.Chains.{make_and_append_chain-Travels}
use labyrinthus.Address.Binding.{inc_binded}
use labyrinthus.Dns.Message.{a_record, dns_response}
use labyrinthus.Server.Requests.{on_dns_request}
use labyrinthus.Server.Receiver.{take_request, on_get_chains_response}
use labyrinthus.Server.Resolution.{request_resolves}
use labyrinthus.Tests.Messages.{socket}

abbrev pub always : Bytes → Bool
always bytes = true

abbrev pub client : ClientObject
client = record {
  local_unique_identifier = 7 ∷ 8 ∷ [];
  local_domain = codes "a.ll";
  chains = chains nil;
  local_addr = 192 ∷ 254 ∷ 0 ∷ 1 ∷ [];
  traffic_key = [];
  client_state = registred;
  last_activity_time = 0;
}

abbrev pub bound : BindedChain
bound = record {
  binded_addr = 192 ∷ 0 ∷ 0 ∷ 1 ∷ [];
  domain_address_crc = get_crc (codes "b.ll");
  get_chains_response =
      get_chains_response 1 [] 2 (address AddrType.domain (codes "b.ll"))
        (layer 1 (10 ∷ 0 ∷ 0 ∷ 3 ∷ []) 1 []);
}

abbrev pub me : Bytes
me = 10 ∷ 0 ∷ 0 ∷ 1 ∷ []

abbrev pub near : Bytes
near = 10 ∷ 0 ∷ 0 ∷ 2 ∷ []

abbrev pub far : Bytes
far = 10 ∷ 0 ∷ 0 ∷ 3 ∷ []

abbrev pub server : Server
server = record {
  rsock = socket;
  my_address = some (address AddrType.ip4 me);
  registred_clients = client ∷ [];
  devices = address AddrType.ip4 near ∷ address AddrType.ip4 far ∷ address AddrType.ip4 me ∷ [];
  binded_chains = bound ∷ [];
  binded_ip = 192 ∷ 0 ∷ 0 ∷ 1 ∷ [];
  dns_requests = [];
  dns_sent = [];
  tun = [];
}

picked :
    (random_device server.devices 4 ≡ done (address AddrType.ip4 near))
    × (random_device server.devices 7 ≡ done (address AddrType.ip4 far))
unfolding random_device
picked = (refl, refl)

make_and_append_chain-Travels_example :
    (c : Object) × (make_and_append_chain server client 4 7
      ≡ done (record client { chains = chains (push_back nil c) }))
    × Travels always
        (5 ∷ [])
        c
        (far ∷ near ∷ me ∷ [])
        (layer AddrType.localhash (7 ∷ 8 ∷ []) Encryption.notencrypt [])
make_and_append_chain-Travels_example =
    make_and_append_chain-Travels always (5 ∷ []) server client 4 7 me near far nil refl picked.0
      picked.1 refl refl refl refl (omega arith)

pub client_found : find_client server.registred_clients (7 ∷ 8 ∷ []) ≡ some client
unfolding find_client
client_found = refl

pub chain_found :
    find_binded server.binded_chains
      (get_crc (codes "b.ll"))
      (address AddrType.domain (codes "b.ll"))
    ≡ done (some bound)
unfolding find_binded get_crc crc_loop compare object_by_name encode
chain_found = refl

client_receives_example :
    (c : ℕ) × (let header = ip_header 23 6 (192 ∷ 0 ∷ 0 ∷ 1 ∷ []) (192 ∷ 254 ∷ 0 ∷ 1 ∷ []) c in
      let bytes = (0 ∷ 0 ∷ 8 ∷ 0 ∷ []) ++ (header ++ (1 ∷ 2 ∷ 3 ∷ [])) in
      (apply_and_route_rss_packet always server (
          data_packet
            (layer AddrType.localhash (7 ∷ 8 ∷ []) 1 [])
            (encode (client_data (address AddrType.domain (codes "b.ll")) (1 ∷ 2 ∷ 3 ∷ []) 6)))
        ≡ done (record server { tun = bytes ∷ [] }, true))
      × (ip_sum header ≡ some 0))
client_receives_example =
    client_receives always server (7 ∷ 8 ∷ []) 1 [] AddrType.domain (codes "b.ll") (1 ∷ 2 ∷ 3 ∷ [])
      6 client bound (omega arith) (omega arith) client_found chain_found
      (
        omega arith,
        (
          omega arith,
          (
            omega arith,
            (omega arith, (omega arith, (omega arith, (omega arith, (omega arith, tt))))),
          ),
        ),
      )

nothing_bound :
    find_binded server.binded_chains
      (get_crc (codes "c.ll"))
      (address AddrType.domain (codes "c.ll"))
    ≡ done none
unfolding find_binded get_crc crc_loop compare object_by_name encode
nothing_bound = refl

nobody_waits :
    take_request server.dns_requests
      (get_crc (codes "c.ll"))
      (address AddrType.domain (codes "c.ll"))
    ≡ none
unfolding take_request
nobody_waits = refl

request_resolves_example :
    (s₁ s₂ s₃ : Server) × (on_dns_request server 0
        (codes "c.ll")
        a_record
        7
        (1 ∷ [])
        (codes "request of c.ll")
      ≡ done s₁)
    × (s₁.dns_sent ≡ [])
    × (on_get_chains_response s₁
          (get_chains_response 1 [] 2 (address AddrType.domain (codes "c.ll")) (layer 1 far 1 []))
        ≡ done s₂)
    × (s₂.dns_requests ≡ [])
    × (s₂.dns_sent
        ≡ (
          1 ∷ [],
          dns_response (codes "request of c.ll") (some (inc_binded (192 ∷ 0 ∷ 0 ∷ 1 ∷ []))),
        )
          ∷ [])
    × (on_dns_request s₂ 5 (codes "c.ll") a_record 8 (2 ∷ []) (codes "another for c.ll") ≡ done s₃)
    × (s₃.dns_sent
        ≡ s₂.dns_sent
          ++ ((
            2 ∷ [],
            dns_response (codes "another for c.ll") (some (inc_binded (192 ∷ 0 ∷ 0 ∷ 1 ∷ []))),
          )
              ∷ []))
request_resolves_example =
    request_resolves [] 2 (codes "c.ll") 1 far 1 [] (omega arith) server 0 7 (1 ∷ [])
      (codes "request of c.ll") 5 8 (2 ∷ []) (codes "another for c.ll") refl nothing_bound
      nobody_waits (omega arith) (omega arith)

-- Two bytes where an IPv4 address should be
forward_short_example :
    apply_and_route_rss_packet always server (
      data_packet
        (layer AddrType.ip4 (10 ∷ 0 ∷ []) 2 (encode (layer AddrType.localhash (7 ∷ 8 ∷ []) 1 [])))
        (5 ∷ []))
    ≡ fault
forward_short_example =
    forward_short always server (10 ∷ 0 ∷ []) 2 AddrType.localhash (7 ∷ 8 ∷ []) 1 [] (5 ∷ [])
      (omega arith) (omega arith)

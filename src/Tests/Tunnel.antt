-- ===== src/Tests/Tunnel.antt =====
-- A packet from the tunnel of one device to that of another at concrete inputs.
use labyrinthus.Server.Standing.{
  Step-Transition, Rounds-registred, StaysRegistred, one_more, none_yet,
}
use labyrinthus.Server.Steps.{tunnelled}
use labyrinthus.Server.Transition.{Transition}
use labyrinthus.Tests.Routes.{client, bound, near, server, always, chain_found, client_found}
use labyrinthus.Base.{
  get_elem?, Bytes, ℕ, ◌≡◌, refl, [], ◌∷◌, ◌++◌, some, done, exited, true, arith, codes,
}
use labyrinthus.Object.Value.{Object}
use labyrinthus.Object.Encode.{encode}
use labyrinthus.Defines.AddrType
use labyrinthus.Defines.Objects.{address, client_data, data_packet, get_chains_response}
use labyrinthus.Checksum.Crc.{get_crc}
use labyrinthus.Checksum.InternetSum.{ip_sum}
use labyrinthus.Address.Binding.{chain_id, client_id}
use labyrinthus.Server.State.{Server, ClientObject, BindedChain}
use labyrinthus.Server.Clients.{get_client_info_by_id, client_info}
use labyrinthus.Server.Peeling.{layer, sent_on, forward_peels}
use labyrinthus.Server.Journey.{Travels, hop, arrived}
use labyrinthus.Server.Routing.{apply_and_route_rss_packet, ip_header}
use labyrinthus.Server.Tunnel.{into_chain, to_chain, tunnel_packet, is_ip4, is_to_chain}
use labyrinthus.Server.Entry.{end_to_end, short_packet_exits}

abbrev sender : ClientObject
sender = record client { local_domain = codes "b.ll" }

abbrev through : BindedChain
through = record {
  binded_addr = 192 ∷ 0 ∷ 0 ∷ 1 ∷ [];
  domain_address_crc = get_crc (codes "a.ll");
  get_chains_response =
      get_chains_response 1 [] 2 (address AddrType.domain (codes "a.ll"))
        (layer AddrType.ip4 near 2 (encode (layer AddrType.localhash (7 ∷ 8 ∷ []) 1 [])));
}

abbrev sending : Server
sending = record server { registred_clients = sender ∷ []; binded_chains = through ∷ [] }

-- An IPv4 packet of UDP with three bytes of data, from the first client to the first chain
abbrev from_client : Bytes
from_client =
    0 ∷ 0 ∷ 8 ∷ 0 ∷ 0x45 ∷ 0 ∷ 0 ∷ 23 ∷ 0 ∷ 0 ∷ 0 ∷ 0 ∷ 64 ∷ 17 ∷ 0 ∷ 0 ∷ 192 ∷ 254 ∷ 0 ∷ 1 ∷ 192
    ∷ 0 ∷ 0 ∷ 1 ∷ 1 ∷ 2 ∷ 3 ∷ []

-- The same with a length field of 5
abbrev too_short : Bytes
too_short =
    0 ∷ 0 ∷ 8 ∷ 0 ∷ 0x45 ∷ 0 ∷ 0 ∷ 5 ∷ 0 ∷ 0 ∷ 0 ∷ 0 ∷ 64 ∷ 17 ∷ 0 ∷ 0 ∷ 192 ∷ 254 ∷ 0 ∷ 1 ∷ 192 ∷ 0
    ∷ 0 ∷ 1 ∷ 1 ∷ 2 ∷ 3 ∷ []

abbrev active : ClientObject
active = record sender { last_activity_time = 9 }

abbrev noted : Server
noted = record sending { registred_clients = active ∷ [] }

sender_known :
    get_client_info_by_id 9 (λ n. n) sending (client_id (192 ∷ 254 ∷ 0 ∷ 1 ∷ []))
    ≡ done (noted, some active)
unfolding get_client_info_by_id client_info client_id
sender_known = refl

chain_bound : get_elem? noted.binded_chains (chain_id (192 ∷ 0 ∷ 0 ∷ 1 ∷ [])) ≡ some through
unfolding chain_id
chain_bound = refl

tests_passed :
    (is_ip4 from_client ≡ true)
    × (is_to_chain from_client ≡ true)
    × (is_ip4 too_short ≡ true)
    × (is_to_chain too_short ≡ true)
unfolding is_ip4 is_to_chain
tests_passed = (refl, refl, refl, refl)

short_packet_exits_example : tunnel_packet always 9 (λ n. n) sending too_short ≡ exited
short_packet_exits_example =
    short_packet_exits always 9 (λ n. n) sending noted too_short active through tests_passed.2
      tests_passed.3 (omega arith) sender_known chain_bound

-- What the packet becomes
abbrev inside : Bytes
inside = encode (client_data (address AddrType.domain (codes "b.ll")) (1 ∷ 2 ∷ 3 ∷ []) 17)

abbrev last_layer : Object
last_layer = layer AddrType.localhash (7 ∷ 8 ∷ []) 1 []

one_hop :
    Travels always inside (layer AddrType.ip4 near 2 (encode last_layer)) (near ∷ []) last_layer
one_hop =
    hop
      (λ s up.
        forward_peels always s near 2 AddrType.localhash (7 ∷ 8 ∷ []) 1 [] inside up refl
          (omega arith))
      arrived

end_to_end_example :
    (c : Object) × (sum : ℕ) × (let header =
        ip_header 23 17 (192 ∷ 0 ∷ 0 ∷ 1 ∷ []) (192 ∷ 254 ∷ 0 ∷ 1 ∷ []) sum in
      let bytes = (0 ∷ 0 ∷ 8 ∷ 0 ∷ []) ++ (header ++ (1 ∷ 2 ∷ 3 ∷ [])) in
      (tunnel_packet always 9 (λ n. n) sending from_client
        ≡ done (record noted { rsock = sent_on noted.rsock near (data_packet c inside) }))
      × Travels always inside c [] last_layer
      × (apply_and_route_rss_packet always server (data_packet last_layer inside)
          ≡ done (record server { tun = bytes ∷ [] }, true))
      × (ip_sum header ≡ some 0))
unfolding encode
end_to_end_example =
    end_to_end always 9 (λ n. n) sending noted server from_client active through 1 [] 2
      (address AddrType.domain (codes "a.ll")) AddrType.ip4 near 2 (encode last_layer) near []
      (7 ∷ 8 ∷ []) 1 [] client bound tests_passed.0 tests_passed.1 (omega arith) sender_known
      chain_bound refl (omega arith) (omega arith) (omega arith) refl one_hop (omega arith)
      (omega arith) client_found chain_found
      (
        omega arith,
        (
          omega arith,
          (
            omega arith,
            (omega arith, (omega arith, (omega arith, (omega arith, (omega arith, tt))))),
          ),
        ),
      )

-- The same packet to a chain that is not there: the client's activity is noted all the same.
abbrev to_nowhere : Bytes
to_nowhere =
    0 ∷ 0 ∷ 8 ∷ 0 ∷ 0x45 ∷ 0 ∷ 0 ∷ 23 ∷ 0 ∷ 0 ∷ 0 ∷ 0 ∷ 64 ∷ 17 ∷ 0 ∷ 0 ∷ 192 ∷ 254 ∷ 0 ∷ 1 ∷ 192
    ∷ 0 ∷ 0 ∷ 9 ∷ 1 ∷ 2 ∷ 3 ∷ []

nowhere_sent : tunnel_packet always 9 (λ n. n) sending to_nowhere ≡ done noted
unfolding tunnel_packet to_chain into_chain is_ip4 is_to_chain get_client_info_by_id client_info
    client_id chain_id
nowhere_sent = refl

Step-Transition_example :
    (c' : ClientObject) × (get_elem? noted.registred_clients 0 ≡ some c') × Transition sender c'
Step-Transition_example =
    Step-Transition always sending noted 0 sender (tunnelled 9 (λ n. n) to_nowhere nowhere_sent)
      refl

Rounds-registred_example :
    (c' : ClientObject) × (get_elem? noted.registred_clients 0 ≡ some c') × StaysRegistred sender c'
Rounds-registred_example =
    Rounds-registred always sending noted 0 sender
      (one_more none_yet (tunnelled 9 (λ n. n) to_nowhere nowhere_sent)) refl refl

-- ===== src/Server/Entry.antt =====
-- A client's packet from the tunnel of one device to that of another (src/apps/RSRouter.cpp).
use labyrinthus.Server.Arrival.{client_receives}
use labyrinthus.Checksum.InternetSum.{ip_sum}
use labyrinthus.Checksum.Crc.{get_crc}
use labyrinthus.Server.Bindings.{find_binded}
use labyrinthus.Address.Binding.{chain_id, client_id}
use labyrinthus.Server.Routing.{ip_header, find_client, apply_and_route_rss_packet}
use labyrinthus.Server.Clients.{get_client_info_by_id}
use labyrinthus.Base.{
  lt→ltb, exited, ap, ◌∙◌, ◌%◌, ◌++◌, ◌++◌, All, ◌>>=◌, get_elem?, some, ◌∷◌, List, Bool, ℕ, ◌+◌,
  ◌-◌, ◌≤◌, ◌<◌, ◌≡◌, refl, Bytes, true, [], done, arith, length, take, drop, get_or, le→ltb_false,
}
use labyrinthus.Base.Words.{int_limit}
use labyrinthus.Object.Value.{Object}
use labyrinthus.Object.Create.{create}
use labyrinthus.Object.Encode.{encode}
use labyrinthus.Object.Access.{
  set_uint_object_by_name, object_by_name, dyn_object_by_name, put_value, assign,
}
use labyrinthus.Object.Shape.{normalize, depth}
use labyrinthus.Object.Copies.{assign-normalize}
use labyrinthus.Defines.Table.{structs, nesting, create_rss_object_with_type}
use labyrinthus.Defines.AddrType
use labyrinthus.Defines.Objects.{
  address, client_data, data_packet, chain_row-IsSound, get_chains_response,
}
use labyrinthus.Server.State.{Server, ClientObject, BindedChain}
use labyrinthus.Server.Edit.{append_dyn, update_object}
use labyrinthus.Server.Peeling.{sent_on, layer, layer_bytes}
use labyrinthus.Server.Journey.{hop, Travels, mod_small}
use labyrinthus.Server.Tunnel.{
  into_chain, ip_dst_of, ip_src_of, is_to_chain, is_ip4, to_chain, tunnel_packet, ip_len_of,
  ip_payload, client_data_of, encrypt_with_key, send_object_of,
}

-- The data behind the header of a packet
abbrev pub payload_of : Bytes → Bytes
payload_of buffer = take (ip_len_of buffer - 20) (drop 24 buffer)

-- What a client's packet becomes
abbrev pub enclosed : ClientObject → Bytes → Object
enclosed co buffer =
    client_data (address AddrType.domain co.local_domain) (payload_of buffer) (get_or buffer 13 0)

client_data_of-enclosed :
    (co : ClientObject) (buffer : Bytes)
    → 20 ≤ ip_len_of buffer
    → client_data_of co buffer ≡ done (enclosed co buffer)
unfolding client_data_of create_rss_object_with_type structs create update_object object_by_name
    append_dyn dyn_object_by_name put_value set_uint_object_by_name ip_payload
client_data_of-enclosed co buffer h = rw (le→ltb_false (ip_len_of buffer) 20 h)

chain_assigned :
    (t : ℕ) (a : Bytes) (m : ℕ) (p : Bytes)
    → length a + length p + 10 < int_limit
    → t < 256
    → m < 256
    → assign nesting structs (layer 0 [] 0 []) (layer t a m p) ≡ done (layer t a m p, true)
unfolding normalize depth
chain_assigned t a m p small ht hm =
    rw (mod_small t ht, mod_small m hm) at
      (assign-normalize nesting structs (layer 0 [] 0 []) (layer t a m p)
        (chain_row-IsSound 0 [] 0 [] (omega arith) (omega arith))
        (chain_row-IsSound t a m p (omega arith) (omega arith)) refl (omega arith) (omega arith)
        (omega (arith, layer_bytes t a m p)))

send_object_of_lem :
    (co : ClientObject) (bc : BindedChain) (buffer : Bytes) (st : ℕ) (key : Bytes) (em : ℕ)
    (ad : Object) (t : ℕ) (a : Bytes) (m : ℕ) (p : Bytes)
    → bc.get_chains_response ≡ get_chains_response st key em ad (layer t a m p)
    → 20 ≤ ip_len_of buffer
    → length a + length p + 10 < int_limit
    → t < 256
    → m < 256
    → send_object_of co bc buffer ≡ done (data_packet (layer t a m p) (encode (enclosed co buffer)))
unfolding send_object_of encrypt_with_key create_rss_object_with_type structs create update_object
    object_by_name append_dyn dyn_object_by_name put_value
send_object_of_lem co bc buffer st key em ad t a m p resp h small ht hm =
    rw (client_data_of-enclosed co buffer h, resp, chain_assigned t a m p small ht hm)

-- A packet of a registered client to a bound chain is enclosed, and routed with that chain.
pub tunnel_packet_lem :
    (written : Bytes → Bool) (now : ℕ) (rands : ℕ → ℕ) (s s₁ : Server) (buffer : Bytes)
    (co : ClientObject) (bc : BindedChain) (st : ℕ) (key : Bytes) (em : ℕ) (ad : Object) (t : ℕ)
    (a : Bytes) (m : ℕ) (p : Bytes)
    → is_ip4 buffer ≡ true
    → is_to_chain buffer ≡ true
    → 20 ≤ ip_len_of buffer
    → get_client_info_by_id now rands s (client_id (ip_src_of buffer)) ≡ done (s₁, some co)
    → get_elem? s₁.binded_chains (chain_id (ip_dst_of buffer)) ≡ some bc
    → bc.get_chains_response ≡ get_chains_response st key em ad (layer t a m p)
    → length a + length p + 10 < int_limit
    → t < 256
    → m < 256
    → tunnel_packet written now rands s buffer ≡ (
        apply_and_route_rss_packet written s₁
          (data_packet (layer t a m p) (encode (enclosed co buffer)))
        >>= λ r. done r.0)
unfolding tunnel_packet to_chain into_chain
tunnel_packet_lem written now rands s s₁ buffer co bc st key em ad t a m p ip4 chain whole known
      bound resp small ht hm =
    rw (
      ip4,
      chain,
      known,
      bound,
      into_chain,
      send_object_of_lem co bc buffer st key em ad t a m p resp whole small ht hm,
    )

first_hop :
    (written : Bytes → Bool) (E : Bytes) (s : Server) {c d : Object} {ip : Bytes} {ips : List Bytes}
    → Travels written E c (ip ∷ ips) d
    → s.rsock.is_open ≡ true
    → (c' : Object) × (apply_and_route_rss_packet written s (data_packet c E)
        ≡ done (record s { rsock = sent_on s.rsock ip (data_packet c' E) }, true))
      × Travels written E c' ips d
first_hop written E s (hop {c' = c'} step way) up = (c', step s up, way)

-- A registered client's IPv4 packet of at least a header, into a bound chain that takes packets to
-- a layer with the hash of a client of a device `d`, on an open socket, with each of the objects
-- smaller than 2^31 bytes and the addresses of bytes: it goes out to the first address of the
-- chain, the rest of the way is as the chain says, and there `d`, if it has a chain bound to the
-- sender's domain, writes the bytes behind the packet's header under a fresh header from that
-- chain's address to its client's, with the protocol, the length and a checksum that verifies.
pub end_to_end :
    (written : Bytes → Bool) (now : ℕ) (rands : ℕ → ℕ) (s s₁ d : Server) (buffer : Bytes)
    (co : ClientObject) (bc : BindedChain) (st : ℕ) (key : Bytes) (em : ℕ) (ad : Object) (t : ℕ)
    (a : Bytes) (m : ℕ) (p : Bytes) (ip : Bytes) (ips : List Bytes) (id : Bytes) (m' : ℕ)
    (inner : Bytes) (co' : ClientObject) (back : BindedChain)
    → is_ip4 buffer ≡ true
    → is_to_chain buffer ≡ true
    → 20 ≤ ip_len_of buffer
    → get_client_info_by_id now rands s (client_id (ip_src_of buffer)) ≡ done (s₁, some co)
    → get_elem? s₁.binded_chains (chain_id (ip_dst_of buffer)) ≡ some bc
    → bc.get_chains_response ≡ get_chains_response st key em ad (layer t a m p)
    → length a + length p + 10 < int_limit
    → t < 256
    → m < 256
    → s₁.rsock.is_open ≡ true
    → Travels written
        (encode (enclosed co buffer))
        (layer t a m p)
        (ip ∷ ips)
        (layer AddrType.localhash id m' inner)
    → length id + length inner + 10 < int_limit
    → length co.local_domain + length (payload_of buffer) + 10 < int_limit
    → find_client d.registred_clients id ≡ some co'
    → find_binded d.binded_chains
        (get_crc co.local_domain)
        (address AddrType.domain co.local_domain)
      ≡ done (some back)
    → All (λ b. b < 256) (back.binded_addr ++ co'.local_addr)
    → (c : Object) × (sum : ℕ) × (let E = encode (enclosed co buffer) in
        let header =
          ip_header
            (length (payload_of buffer) + 20)
            (get_or buffer 13 0 % 256)
            back.binded_addr
            co'.local_addr
            sum in
        let bytes = (0 ∷ 0 ∷ 8 ∷ 0 ∷ []) ++ (header ++ payload_of buffer) in
        (tunnel_packet written now rands s buffer
          ≡ done (record s₁ { rsock = sent_on s₁.rsock ip (data_packet c E) }))
        × Travels written E c ips (layer AddrType.localhash id m' inner)
        × (apply_and_route_rss_packet written d
              (data_packet (layer AddrType.localhash id m' inner) E)
            ≡ done (record d { tun = d.tun ++ (bytes ∷ []) }, written bytes))
        × (ip_sum header ≡ some 0))
end_to_end written now rands s s₁ d buffer co bc st key em ad t a m p ip ips id m' inner co' back
      ip4 chain whole known bound resp small ht hm up way size size' client found bytes =
    let (c, step, rest) = first_hop written (encode (enclosed co buffer)) s₁ way up in
    let (sum, (arrives, ok)) =
      client_receives written d id m' inner AddrType.domain co.local_domain (payload_of buffer)
        (get_or buffer 13 0) co' back size size' client found bytes in
    (
      c,
      sum,
      (
        tunnel_packet_lem written now rands s s₁ buffer co bc st key em ad t a m p ip4 chain whole
              known bound resp small ht hm
            ∙ ap (λ r. r >>= λ x. done x.0) step,
        rest,
        arrives,
        ok,
      ),
    )

-- A registered client's IPv4 packet into a bound chain ends the process if its length field is
-- below the 20 bytes of the header.
pub short_packet_exits :
    (written : Bytes → Bool) (now : ℕ) (rands : ℕ → ℕ) (s s₁ : Server) (buffer : Bytes)
    (co : ClientObject) (bc : BindedChain)
    → is_ip4 buffer ≡ true
    → is_to_chain buffer ≡ true
    → ip_len_of buffer < 20
    → get_client_info_by_id now rands s (client_id (ip_src_of buffer)) ≡ done (s₁, some co)
    → get_elem? s₁.binded_chains (chain_id (ip_dst_of buffer)) ≡ some bc
    → tunnel_packet written now rands s buffer ≡ exited
unfolding tunnel_packet to_chain into_chain send_object_of client_data_of
    create_rss_object_with_type structs create update_object object_by_name append_dyn
    dyn_object_by_name put_value set_uint_object_by_name ip_payload
short_packet_exits written now rands s s₁ buffer co bc ip4 chain short known bound =
    rw (ip4, chain, known, bound, lt→ltb (ip_len_of buffer) 20 short)

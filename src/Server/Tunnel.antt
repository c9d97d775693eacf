-- ===== src/Server/Tunnel.antt =====
-- What the device does with what it reads from its tunnel (src/apps/RSRouter.cpp).
use labyrinthus.Base.{
  Option, ℕ, ◌+◌, ◌-◌, ◌*◌, Bool, true, ◌&&◌, Bytes, some, none, Run, done, exited, ◌>>=◌, ◌==◌,
  ltb, length, take, drop, get_or, get_elem?, codes, if◌then◌else◌,
}
use labyrinthus.Object.Value.{Object}
use labyrinthus.Object.Encode.{encode}
use labyrinthus.Object.Access.{set_uint_object_by_name, object_by_name, assign}
use labyrinthus.Defines.Table.{
  structs, nesting, create_rss_object_with_type, users_subnet_major, users_subnet_minor,
  chains_subnet_major,
}
use labyrinthus.Defines.AddrType
use labyrinthus.Address.Binding.{chain_id, client_id}
use labyrinthus.Server.State.{Server, ClientObject, BindedChain}
use labyrinthus.Server.Edit.{append_dyn, update_object}
use labyrinthus.Server.Routing.{apply_and_route_rss_packet}
use labyrinthus.Server.Clients.{get_client_info_by_id}

-- `encrypt_data(data, public_key)`: no more than this
unfoldable pub encrypt_with_key : Bytes → Bytes × Bool
encrypt_with_key s = (s, true)

-- The fields of the `ip4_t` behind the four bytes of flags
abbrev pub ip_len_of : Bytes → ℕ
ip_len_of buffer = get_or buffer 6 0 * 256 + get_or buffer 7 0

abbrev pub ip_src_of : Bytes → Bytes
ip_src_of buffer = take 4 (drop 16 buffer)

abbrev pub ip_dst_of : Bytes → Bytes
ip_dst_of buffer = take 4 (drop 20 buffer)

-- `append(buffer+4+sizeof(ip4_t), ntohs(ip_len)-sizeof(ip4_t))`: below 20 the length wraps, and
-- `append` throws.
unfoldable pub ip_payload : Bytes → Run Bytes
ip_payload buffer =
    if ltb (ip_len_of buffer) 20
    then exited
    else done (take (ip_len_of buffer - 20) (drop 24 buffer))

-- The tests on what was read: an IPv4 packet, whole, from a client to a chain
unfoldable pub is_ip4 : Bytes → Bool
is_ip4 buffer =
    get_or buffer 2 0 == 0x08
    && get_or buffer 3 0 == 0x00
    && get_or buffer 4 0 == 0x45
    && ltb 20 (length buffer - 4)

unfoldable pub is_to_chain : Bytes → Bool
is_to_chain buffer =
    get_or (ip_src_of buffer) 0 0 == users_subnet_major
    && get_or (ip_src_of buffer) 1 0 == users_subnet_minor
    && get_or (ip_dst_of buffer) 0 0 == chains_subnet_major
    && ltb (ip_len_of buffer) (length buffer - 4 + 1)

-- The data_packet_encrypted_data of a client's packet
unfoldable pub client_data_of : ClientObject → Bytes → Run Object
client_data_of ca buffer = do
  encdata ← create_rss_object_with_type (codes "data_packet_encrypted_data")
  encdata₁ ← update_object encdata (codes "return_address") (λ ra.
      append_dyn ra (codes "address") ca.local_domain >>= λ ra'.
      set_uint_object_by_name ra' (codes "type") AddrType.domain)
  encdata₂ ← set_uint_object_by_name encdata₁ (codes "ip_protocol") (get_or buffer 13 0)
  packet ← ip_payload buffer
  append_dyn encdata₂ (codes "data") packet

-- The data_packet_t that goes into a chain
unfoldable pub send_object_of : ClientObject → BindedChain → Bytes → Run Object
send_object_of ca bc buffer = do
  send_object ← create_rss_object_with_type (codes "data_packet_t")
  encdata ← client_data_of ca buffer
  send_object₁ ←
      append_dyn send_object (codes "encrypted_data") (encrypt_with_key (encode encdata)).0
  chain ← object_by_name bc.get_chains_response (codes "chain")
  update_object send_object₁ (codes "chain") (λ c. assign nesting structs c chain >>= λ r. done r.0)

-- The packet of a client goes into the chain, if there is one.
unfoldable pub into_chain :
    (Bytes → Bool) → Server → ClientObject → Bytes → Option BindedChain → Run Server
into_chain written s ca buffer none = done s
into_chain written s ca buffer (some bc) = do
  o ← send_object_of ca bc buffer
  r ← apply_and_route_rss_packet written s o
  done r.0

-- The client may be started even if there is no such chain.
unfoldable pub to_chain : (Bytes → Bool) → ℕ → (ℕ → ℕ) → Server → Bytes → Run Server
to_chain written now rands s buffer = do
  info ← get_client_info_by_id now rands s (client_id (ip_src_of buffer))
  elim info.1 [
    | none ↦ done info.0
    | some ca ↦
        into_chain written info.0 ca buffer
          (get_elem? info.0.binded_chains (chain_id (ip_dst_of buffer)))
  ]

-- One round of the loop of `tunnel_thread_function`, on the bytes that `read` gave
unfoldable pub tunnel_packet : (Bytes → Bool) → ℕ → (ℕ → ℕ) → Server → Bytes → Run Server
tunnel_packet written now rands s buffer =
    let sent = to_chain written now rands s buffer in
    if is_ip4 buffer && is_to_chain buffer then sent else done s

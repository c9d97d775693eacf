-- ===== src/Server/Routing.antt =====
-- `apply_and_route_rss_packet` (src/apps/RSRouter.cpp). `written` says whether the write into the
-- tunnel device succeeds. The object that is routed is the caller's, who deletes it.
use labyrinthus.Base.{
  ℕ, ◌+◌, ◌%◌, ◌/◌, Bool, true, false, Bytes, List, [], ◌∷◌, ◌++◌, Option, some, none, Run, done,
  fault, out_of_fuel, ◌>>=◌, ◌==◌, bytes_eq, length, codes, if◌then◌else◌,
}
use labyrinthus.Object.Value.{Object, nested}
use labyrinthus.Object.Parse.{parse, parsed, rejected}
use labyrinthus.Object.Access.{
  uint_object_by_name, dyn_object_by_name, object_by_name, put_value, copy,
}
use labyrinthus.Defines.Table.{structs, nesting, create_rss_object_with_type}
use labyrinthus.Defines.AddrType
use labyrinthus.Defines.Cmd
use labyrinthus.Checksum.InternetSum.{ip_sum}
use labyrinthus.Socket.Packet.{send_to_ip_address}
use labyrinthus.Server.State.{ClientObject, Server}
use labyrinthus.Server.Onion.{in_addr_of}
use labyrinthus.Server.Bindings.{get_binded_chain_by_address}

-- `decrypt_data`: no more than this
unfoldable pub decrypt_data : Bytes → Bytes × Bool
decrypt_data s = (s, true)

-- The bytes of the `ip4_t` with the checksum field given
abbrev pub ip_header : ℕ → ℕ → Bytes → Bytes → ℕ → Bytes
ip_header len proto src dst sum =
    (0x45 ∷ 0 ∷ (len / 256 % 256) ∷ (len % 256) ∷ 0 ∷ 0 ∷ 0x40 ∷ 0 ∷ 64 ∷ (proto % 256) ∷ [])
    ++ ((sum % 256) ∷ (sum / 256) ∷ (src ++ dst))

-- What is written into the tunnel: the flags, the header with its checksum, the data
unfoldable pub iface_data : ℕ → Bytes → Bytes → Bytes → Run Bytes
iface_data proto src dst payload =
    let len = length payload + 20 in
    elim (ip_sum (ip_header len proto src dst 0)) [
      | none ↦ out_of_fuel
      | some sum ↦ done ((0 ∷ 0 ∷ 8 ∷ 0 ∷ []) ++ (ip_header len proto src dst sum ++ payload))
    ]

unfoldable pub find_client : List ClientObject → Bytes → Option ClientObject
find_client [] hash = none
find_client (co ∷ rest) hash =
    let later = find_client rest hash in
    if bytes_eq co.local_unique_identifier hash then some co else later

-- The delivery to a client of this device
unfoldable pub deliver : (Bytes → Bool) → Server → ClientObject → Bytes → Run (Server × Bool)
deliver written s co encrypted_data =
    create_rss_object_with_type (codes "data_packet_encrypted_data") >>= λ decode_me.
    parse nesting structs decode_me encrypted_data (length encrypted_data) >>= elim [
      | rejected _ ↦ done (s, false)
      | parsed o _ ↦ do
        payload ← dyn_object_by_name o (codes "data")
        return_addr ← object_by_name o (codes "return_address")
        found ← get_binded_chain_by_address s return_addr
        elim found.1 [
          | none ↦ done (found.0, false)
          | some bc ↦ do
            proto ← uint_object_by_name o (codes "ip_protocol")
            bytes ← iface_data proto bc.binded_addr co.local_addr payload
            done (record found.0 { tun = found.0.tun ++ (bytes ∷ []) }, written bytes)
        ]
    ]

-- The branch of an IPv4 address: the chain is replaced by what it holds, and the packet sent on.
unfoldable pub forward : Server → Object → Object → Object → Bytes → Run (Server × Bool)
forward s send_object chain_from_param chain_addr inner =
    parse nesting structs chain_from_param inner (length inner) >>= elim [
      | rejected _ ↦ done (s, false)
      | parsed peeled _ ↦ do
        send_object' ← put_value send_object (codes "chain") (nested peeled)
        address ← dyn_object_by_name chain_addr (codes "address")
        ip ← in_addr_of address
        r ← send_to_ip_address s.rsock ip Cmd.send_packet send_object'
        done (record s { rsock = r.0 }, r.1)
    ]

unfoldable pub deliver_to_hash : (Bytes → Bool) → Server → Object → Bytes → Run (Server × Bool)
deliver_to_hash written s chain_addr encrypted_data = do
  localhash ← dyn_object_by_name chain_addr (codes "address")
  elim (find_client s.registred_clients localhash) [
    | none ↦ done (s, false)
    | some co ↦ deliver written s co encrypted_data
  ]

unfoldable pub apply_and_route_rss_packet : (Bytes → Bool) → Server → Object → Run (Server × Bool)
apply_and_route_rss_packet written s send_object = do
  chain_from_param ← object_by_name send_object (codes "chain")
  copied ← copy nesting structs chain_from_param
  chain ← elim copied [ none ↦ fault | some c ↦ done c ]
  matreshka ← object_by_name chain (codes "matreshka")
  encrypted_chains ← dyn_object_by_name matreshka (codes "data")
  encrypted_data ← dyn_object_by_name send_object (codes "encrypted_data")
  chain_addr ← object_by_name chain (codes "address")
  type ← uint_object_by_name chain_addr (codes "type")
  let next : Run (Server × Bool) =
      forward s send_object chain_from_param chain_addr (decrypt_data encrypted_chains).0
  let here : Run (Server × Bool) =
      deliver_to_hash written s chain_addr (decrypt_data encrypted_data).0
  if type == AddrType.ip4
      then next
      else if type == AddrType.localhash
      then here
      else done (s, false)

-- ===== src/Server/Receiver.antt =====
-- What the device does with a packet that it receives (src/apps/RSServerCommunication.cpp).
use labyrinthus.Base.{
  ℕ, zero, suc, Bool, true, false, Bytes, List, [], ◌∷◌, ◌++◌, Option, some, none, Run, done,
  out_of_fuel, ◌>>=◌, ◌==◌, ◌&&◌, bytes_eq, codes, if◌then◌else◌,
}
use labyrinthus.Object.Value.{Object, Objects, nil, item}
use labyrinthus.Object.Access.{
  set_uint_object_by_name, uint_object_by_name, dyn_object_by_name, array_object_by_name,
  object_by_name, compare, copy, assign,
}
use labyrinthus.Defines.Table.{structs, nesting, create_rss_object_with_type, response_ok}
use labyrinthus.Defines.AddrType
use labyrinthus.Defines.Cmd
use labyrinthus.Checksum.Crc.{get_crc}
use labyrinthus.Address.Binding.{inc_binded}
use labyrinthus.Socket.Packet.{
  Event, send_to_route_server, receive_packet, get_last_cmd, get_last_packed_data_as_type,
  is_last_packed_from_route_server,
}
use labyrinthus.Dns.Pending.{DnsRequests}
use labyrinthus.Server.State.{Server, ClientObject, BindedChain, registred}
use labyrinthus.Server.Routing.{apply_and_route_rss_packet}
use labyrinthus.Server.Requests.{send_dns_response}

-- A response with status OK binds the chain to the next address.
unfoldable pub bind_chain : Server → Object → ℕ → Run Server
bind_chain s o crc = do
  fresh ← create_rss_object_with_type (codes "getChainsResponse")
  kept ← assign nesting structs fresh o
  let ip : Bytes = inc_binded s.binded_ip
  let bc : BindedChain = record {
    binded_addr = ip;
    domain_address_crc = crc;
    get_chains_response = kept.0;
  }
  done (record s { binded_ip = ip; binded_chains = s.binded_chains ++ (bc ∷ []) })

-- The test on a request that waits
unfoldable pub awaits : DnsRequests → ℕ → Object → Bool
awaits rt crc addr = if rt.address_crc == crc then compare rt.asked addr else false

-- The loop over the requests: the first that waits for the address, and the others
unfoldable pub take_request :
    List DnsRequests → ℕ → Object → Option (DnsRequests × List DnsRequests)
take_request [] crc addr = none
take_request (rt ∷ rest) crc addr =
    let later : Option (DnsRequests × List DnsRequests) = elim (take_request rest crc addr) [
      | none ↦ none
      | some found ↦ some (found.0, rt ∷ found.1)
    ] in
    if awaits rt crc addr then some (rt, rest) else later

unfoldable pub answer_request : Server → ℕ → Object → Option Bytes → Server
answer_request s crc addr ip = elim (take_request s.dns_requests crc addr) [
  | none ↦ s
  | some found ↦ send_dns_response (record s { dns_requests = found.1 }) found.0 ip
]

unfoldable pub on_get_chains_response : Server → Object → Run Server
on_get_chains_response s o = do
  addr_o ← object_by_name o (codes "address")
  addr ← dyn_object_by_name addr_o (codes "address")
  status ← uint_object_by_name o (codes "status")
  let bound : Run Server = bind_chain s o (get_crc addr) >>= λ s'.
      done (answer_request s' (get_crc addr) addr_o (some s'.binded_ip))
  if status == response_ok then bound else done (answer_request s (get_crc addr) addr_o none)

-- The first client of the domain is registered.
unfoldable pub register : List ClientObject → Bytes → List ClientObject
register [] name = []
register (co ∷ rest) name =
    let later = co ∷ register rest name in
    if bytes_eq co.local_domain name then record co { client_state = registred } ∷ rest else later

unfoldable pub on_set_chains_response : Server → Object → Run Server
on_set_chains_response s o = do
  addr_o ← object_by_name o (codes "address")
  type ← uint_object_by_name addr_o (codes "type")
  let named : Run Server = dyn_object_by_name addr_o (codes "address") >>= λ name.
      done (record s { registred_clients = register s.registred_clients name })
  if type == AddrType.domain then named else done s

unfoldable pub on_device_connect_response : Server → Object → Run Server
on_device_connect_response s o = do
  status ← uint_object_by_name o (codes "status")
  let connected : Run Server = object_by_name o (codes "you_address") >>= λ you.
      copy nesting structs you >>= λ mine.
      create_rss_object_with_type (codes "getDevicesRequest") >>= λ os.
      set_uint_object_by_name os (codes "max_count") 10 >>= λ os'.
      send_to_route_server s.rsock Cmd.getdevices_request os' >>= λ sent.
      done (record s { my_address = mine; rsock = sent.0 })
  if status == response_ok then connected else done s

-- The copies that are not NULL
unfoldable pub copy_all : Objects → Run (List Object)
copy_all nil = done []
copy_all (item o os) = do
  copied ← copy nesting structs o
  rest ← copy_all os
  done (elim copied [ none ↦ rest | some c ↦ c ∷ rest ])

unfoldable pub on_get_devices_response : Server → Object → Run Server
on_get_devices_response s o = do
  rd ← array_object_by_name o (codes "devices")
  copies ← copy_all rd
  done (record s { devices = copies })

-- A payload that does not unpack is no case of the chain of tests.
unfoldable pub unpack : Server → Bytes → (Object → Run Server) → Run Server
unpack s type_name handler =
    get_last_packed_data_as_type s.rsock type_name >>= elim [ none ↦ done s | some o ↦ handler o ]

-- The chain of tests on where a packet is from and on its command
unfoldable pub dispatch : (Bytes → Bool) → Server → Bool → ℕ → Run Server
dispatch written s from cmd_id =
    let chains_r = unpack s (codes "getChainsResponse") (on_get_chains_response s) in
    let set_r = unpack s (codes "setChainsResponse") (on_set_chains_response s) in
    let connect_r = unpack s (codes "onDeviceConnectResponse") (on_device_connect_response s) in
    let devices_r = unpack s (codes "getDevicesResponse") (on_get_devices_response s) in
    let packet_r =
      unpack s (codes "data_packet_t")
        (λ o. apply_and_route_rss_packet written s o >>= λ r. done r.0) in
    if from && cmd_id == Cmd.getchains_response
    then chains_r
    else if from && cmd_id == Cmd.setchains_response
    then set_r
    else if from && cmd_id == Cmd.ondeviceconnect_response
    then connect_r
    else if from && cmd_id == Cmd.getdevices_response
    then devices_r
    else if from
    then done s
    else if cmd_id == Cmd.send_packet
    then packet_r
    else done s

-- One round of the loop of `receiver`
unfoldable pub handle_packet : (Bytes → Bool) → Server → Run Server
handle_packet written s = get_last_cmd s.rsock >>= λ cmd_id.
    let (rsock', from) = is_last_packed_from_route_server s.rsock in
    dispatch written (record s { rsock = rsock' }) from cmd_id

-- `receiver`, until a receive fails; without fuel, or while it waits, it has no result.
unfoldable pub receiver : ℕ → (Bytes → Bool) → Server → List Event → Run Server
receiver zero written s events = out_of_fuel
receiver (suc fuel) written s events = receive_packet s.rsock events >>= λ got. elim got.1 [
  | false ↦ done (record s { rsock = got.0 })
  | true ↦
      handle_packet written (record s { rsock = got.0 }) >>= λ s'. receiver fuel written s' got.2
]

-- ===== src/Tests/States.antt =====
-- The states of the device at concrete inputs.
use mathlib.Core.Path.{subst}
use labyrinthus.Server.Round.{packet_round}
use labyrinthus.Base.{false, fault, ap, Run, Option, none, Bytes, ℕ, ◌≤◌, length, ◌>>=◌}
use labyrinthus.Defines.Objects.{data_packet}
use labyrinthus.Socket.Packet.{get_last_packed_data_as_type}
use labyrinthus.Object.Access.{object_by_name, dyn_object_by_name}
use labyrinthus.Server.Connect.{device_connects, asks_devices}
use labyrinthus.Defines.Objects.{device_connect_response}
use labyrinthus.Base.{some, ◌≢◌, sym, ◌∙◌}
use labyrinthus.Server.Indexed.{Reach-IsIndexed, Reach-directory}
use labyrinthus.Server.Directory.{IsIndexed, directory}
use labyrinthus.Server.Naming.{answered_by}
use labyrinthus.Server.Requests.{on_dns_request}
use labyrinthus.Dns.Message.{a_record}
use labyrinthus.Base.{All}
use labyrinthus.Server.Devices.{devices_arrive}
use labyrinthus.Socket.Reply.{answer_to_sender, send_to_last_address}
use labyrinthus.Server.Frame.{view}
use labyrinthus.Socket.Total.{receive_packet-Sure, Ready}
use labyrinthus.Address.Binding.{chain_id}
use labyrinthus.Server.Invariant.{Reach-IsConsistent, Reach-chain_id, IsConsistent}
use labyrinthus.Object.Safety.{Sure}
use labyrinthus.Server.Peeling.{layer}
use labyrinthus.Object.Parse.{parse}
use labyrinthus.Object.Encode.{encode}
use labyrinthus.Object.Value.{nil, item, Object}
use labyrinthus.Server.Receiver.{
  bind_chain, on_get_chains_response, unpack, dispatch, handle_packet,
}
use labyrinthus.Server.State.{BindedChain, Server}
use labyrinthus.Base.{some, get_elem?, arith, ◌∷◌, [], List, Bytes, ◌≡◌, refl, done, true, codes}
use labyrinthus.Defines.Table.{response_ok, rs_host, create_rss_object_with_type, structs}
use labyrinthus.Object.Create.{create}
use labyrinthus.Server.Start.{main_state, allocate_clients, allocate_client_object, new_socket}
use labyrinthus.Server.Steps.{Reach, start, next, packet}
use labyrinthus.Tests.Messages.{socket, peer}
use labyrinthus.Socket.Packet.{
  af_inet, failed, is_last_packed_from_route_server, get_last_cmd, Socket, datagram, receive_loop,
  receive_packet, SockAddr, Event,
}
use labyrinthus.Defines.Objects.{
  devices_response, packet as wire_packet, get_chains_response, address,
}
use labyrinthus.Defines.Cmd
use labyrinthus.Defines.AddrType
use labyrinthus.Tests.Routes.{always}

abbrev pub route_server : SockAddr
route_server = record { family = 2; port = 7778; addr = rs_host }

abbrev pub memory : Bytes
memory = codes "................................................................................"

started : (s : Server) × (main_state true route_server 0 memory ≡ done s)
unfolding main_state allocate_clients allocate_client_object new_socket create_rss_object_with_type
    structs create
started = (_, refl)

first-Reach : Reach always started.0
first-Reach = start route_server 0 memory (omega arith) started.1

abbrev response : Object
response =
    get_chains_response response_ok (9 ∷ []) 2 (address AddrType.domain (codes "c.ll"))
      (layer AddrType.ip4 (10 ∷ 0 ∷ 0 ∷ 3 ∷ []) 1 [])

abbrev arrives : List Event
arrives =
    datagram route_server 16 (encode (wire_packet Cmd.getchains_response (encode response))) ∷ []

got : (k : Socket) × (receive_packet started.0.rsock arrives ≡ done (k, true, []))
unfolding receive_packet receive_loop encode parse create_rss_object_with_type structs create
    started labyrinthus.Object.Parse.parse_rows labyrinthus.Object.Parse.parse_value
    labyrinthus.Object.Parse.parse_scalar labyrinthus.Object.Parse.parse_dyn
got = (_, refl)

handled : (s : Server) × (handle_packet always (record started.0 { rsock = got.0 }) ≡ done s)
unfolding handle_packet dispatch unpack on_get_chains_response bind_chain get_last_cmd
    is_last_packed_from_route_server got started labyrinthus.Object.Access.uint_object_by_name
    labyrinthus.Socket.Packet.is_last_packet_ipv4
    labyrinthus.Socket.Packet.get_last_packed_data_as_type
    labyrinthus.Socket.Packet.get_last_packet_data labyrinthus.Object.Access.dyn_object_by_name
    labyrinthus.Object.Access.object_by_name labyrinthus.Object.Access.assign
handled = (_, refl)

second-Reach : Reach always handled.0
second-Reach = next first-Reach (packet got.0 arrives [] got.1 handled.1)

-- A second chain
abbrev another : Object
another =
    get_chains_response response_ok (9 ∷ []) 2 (address AddrType.domain (codes "d.ll"))
      (layer AddrType.ip4 (10 ∷ 0 ∷ 0 ∷ 3 ∷ []) 1 [])

abbrev arrives_too : List Event
arrives_too =
    datagram route_server 16 (encode (wire_packet Cmd.getchains_response (encode another))) ∷ []

got_too : (k : Socket) × (receive_packet handled.0.rsock arrives_too ≡ done (k, true, []))
unfolding receive_packet receive_loop encode parse create_rss_object_with_type structs create
    started labyrinthus.Object.Parse.parse_rows labyrinthus.Object.Parse.parse_value
    labyrinthus.Object.Parse.parse_scalar labyrinthus.Object.Parse.parse_dyn got handle_packet
    dispatch unpack on_get_chains_response bind_chain get_last_cmd is_last_packed_from_route_server
    labyrinthus.Object.Access.uint_object_by_name labyrinthus.Socket.Packet.is_last_packet_ipv4
    labyrinthus.Socket.Packet.get_last_packed_data_as_type
    labyrinthus.Socket.Packet.get_last_packet_data labyrinthus.Object.Access.dyn_object_by_name
    labyrinthus.Object.Access.object_by_name labyrinthus.Object.Access.assign handled
    labyrinthus.Server.Receiver.answer_request labyrinthus.Server.Receiver.take_request
got_too = (_, refl)

handled_too :
    (s : Server) × (handle_packet always (record handled.0 { rsock = got_too.0 }) ≡ done s)
unfolding handle_packet dispatch unpack on_get_chains_response bind_chain get_last_cmd
    is_last_packed_from_route_server got started labyrinthus.Object.Access.uint_object_by_name
    labyrinthus.Socket.Packet.is_last_packet_ipv4
    labyrinthus.Socket.Packet.get_last_packed_data_as_type
    labyrinthus.Socket.Packet.get_last_packet_data labyrinthus.Object.Access.dyn_object_by_name
    labyrinthus.Object.Access.object_by_name labyrinthus.Object.Access.assign got_too handled
    labyrinthus.Server.Receiver.answer_request labyrinthus.Server.Receiver.take_request
handled_too = (_, refl)

third-Reach : Reach always handled_too.0
third-Reach = next second-Reach (packet got_too.0 arrives_too [] got_too.1 handled_too.1)

Reach-IsConsistent_example : IsConsistent (view handled_too.0)
Reach-IsConsistent_example = Reach-IsConsistent always handled_too.0 third-Reach

bound_chains :
    (b c : BindedChain) × (get_elem? handled_too.0.binded_chains 0 ≡ some b)
    × (get_elem? handled_too.0.binded_chains 1 ≡ some c)
unfolding handled got started handled_too got_too labyrinthus.Server.Receiver.answer_request
    labyrinthus.Server.Receiver.take_request
bound_chains = (_, _, refl, refl)

Reach-chain_id_example : chain_id bound_chains.1.binded_addr ≡ 1
Reach-chain_id_example =
    Reach-chain_id always handled_too.0 1 bound_chains.1 third-Reach bound_chains.3 (omega arith)

receive_packet-Sure_example :
    Sure (Ready 14) (receive_packet socket (datagram peer 16 (1 ∷ 2 ∷ 3 ∷ []) ∷ failed ∷ []))
receive_packet-Sure_example =
    receive_packet-Sure socket (datagram peer 16 (1 ∷ 2 ∷ 3 ∷ []) ∷ []) [] (omega arith)

answer_to_sender_example :
    (r₁ r₂ : Socket) × (receive_packet socket
        (datagram peer 16 (encode (wire_packet 3 (8 ∷ []))) ∷ failed ∷ [])
      ≡ done (r₁, true, failed ∷ []))
    × (send_to_last_address r₁ 4 (address 1 []) ≡ done (r₂, true))
    × (r₂.sent
        ≡ (
          record { family = af_inet; port = 7778; addr = peer.addr },
          encode (wire_packet 4 (encode (address 1 []))),
        )
          ∷ [])
unfolding encode
answer_to_sender_example =
    answer_to_sender socket peer (failed ∷ []) 3 (8 ∷ []) 4 (address 1 []) refl (omega arith)
      (omega arith)

devices_arrive_example :
    (k : Socket) × (receive_packet
        (record socket { buffer = memory })
        (datagram
            (record { family = af_inet; port = 5; addr = rs_host })
            16
            (encode (
              wire_packet Cmd.getdevices_response
                (encode (devices_response 1 (item (address 257 (8 ∷ [])) nil)))))
          ∷ failed
          ∷ [])
      ≡ done (k, true, failed ∷ []))
    × (handle_packet always (record started.0 { rsock = k })
        ≡ done (record started.0 { rsock = k; devices = address 1 (8 ∷ []) ∷ [] }))
unfolding encode
devices_arrive_example =
    devices_arrive always (record started.0 { rsock = record socket { buffer = memory } }) 1 5
      ((257, 8 ∷ []) ∷ []) (failed ∷ []) refl (omega arith) (omega arith)

Reach-IsIndexed_example : All IsIndexed handled_too.0.binded_chains
Reach-IsIndexed_example = Reach-IsIndexed third-Reach

Reach-directory_example :
    on_dns_request handled_too.0 5 (codes "d.ll") a_record 7 (1 ∷ []) (codes "request of d.ll")
    ≡ done (
        answered_by
          (directory handled_too.0 (codes "d.ll"))
          handled_too.0
          5
          (codes "d.ll")
          7
          (1 ∷ [])
          (codes "request of d.ll"))
Reach-directory_example =
    Reach-directory handled_too.0 5 (codes "d.ll") 7 (1 ∷ []) (codes "request of d.ll") third-Reach
      (omega arith) (omega arith)

device_connects_example :
    (k : Socket) × (receive_packet
        (record socket { buffer = memory })
        (datagram
            (record { family = af_inet; port = 5; addr = rs_host })
            16
            (encode (
              wire_packet Cmd.ondeviceconnect_response
                (encode (device_connect_response response_ok (address 1 (10 ∷ 0 ∷ 0 ∷ 9 ∷ []))))))
          ∷ failed
          ∷ [])
      ≡ done (k, true, failed ∷ []))
    × (handle_packet always (record started.0 { rsock = k })
        ≡ done (record started.0 {
          my_address = some (address 1 (10 ∷ 0 ∷ 0 ∷ 9 ∷ []));
          rsock = asks_devices k;
        }))
unfolding encode
device_connects_example =
    device_connects always (record started.0 { rsock = record socket { buffer = memory } }) 5 1
      (10 ∷ 0 ∷ 0 ∷ 9 ∷ []) (failed ∷ []) refl (omega arith) (omega arith)

-- A packet of another device, to be sent on
abbrev passed : Object
passed =
    data_packet
      (layer AddrType.ip4 (10 ∷ 0 ∷ 0 ∷ 3 ∷ []) 2 (encode (layer AddrType.localhash (7 ∷ []) 1 [])))
      (5 ∷ [])

abbrev arrives_data : List Event
arrives_data =
    datagram (record { family = 2; port = 7778; addr = 10 ∷ 0 ∷ 0 ∷ 7 ∷ [] }) 16
      (encode (wire_packet Cmd.send_packet (encode passed)))
    ∷ []

got_data : (k : Socket) × (receive_packet started.0.rsock arrives_data ≡ done (k, true, []))
unfolding receive_packet receive_loop encode parse create_rss_object_with_type structs create
    started labyrinthus.Object.Parse.parse_rows labyrinthus.Object.Parse.parse_value
    labyrinthus.Object.Parse.parse_scalar labyrinthus.Object.Parse.parse_dyn
got_data = (_, refl)

got_from : (is_last_packed_from_route_server got_data.0).1 ≡ false
unfolding got_data started is_last_packed_from_route_server
    labyrinthus.Socket.Packet.is_last_packet_ipv4
got_from = refl

unpacked_data :
    get_last_packed_data_as_type
      (is_last_packed_from_route_server got_data.0).0
      (codes "data_packet_t")
    ≡ done (some passed)
unfolding got_data started is_last_packed_from_route_server
    labyrinthus.Socket.Packet.is_last_packet_ipv4 get_last_packed_data_as_type
    labyrinthus.Socket.Packet.get_last_packet_data labyrinthus.Object.Access.dyn_object_by_name
    parse create_rss_object_with_type structs create labyrinthus.Object.Parse.parse_rows
    labyrinthus.Object.Parse.parse_value labyrinthus.Object.Parse.parse_scalar
    labyrinthus.Object.Parse.parse_dyn encode
unpacked_data = refl

-- The address of the first layer
abbrev first_address : Run (Option Object) → Run Bytes
first_address r = r >>= elim [
  | none ↦ fault
  | some o ↦ do
    c ← object_by_name o (codes "chain")
    addr ← object_by_name c (codes "address")
    dyn_object_by_name addr (codes "address")
]

data_Long :
    (t : ℕ) (a : Bytes) (m : ℕ) (p payload : Bytes)
    → done (some passed) ≡ done (some (data_packet (layer t a m p) payload))
    → 3 ≤ length a
unfolding object_by_name dyn_object_by_name
data_Long t a m p payload e =
    let same : done (10 ∷ 0 ∷ 0 ∷ 3 ∷ []) ≡ done a = ap first_address e in
    let whole : 10 ∷ 0 ∷ 0 ∷ 3 ∷ [] ≡ a = cc in subst (λ b. 3 ≤ length b) whole (omega arith)

server_no : (is_last_packed_from_route_server got_data.0).1 ≢ true
server_no from = let no : false ≡ true = sym got_from ∙ from in cc

packet_round_example :
    (s' : Server) × (handle_packet always (record started.0 { rsock = got_data.0 }) ≡ done s')
    × Reach always s'
packet_round_example =
    packet_round got_data.0 arrives_data [] first-Reach got_data.1 (λ from. absurd (server_no from))
      (λ from t a m p payload e ip4. data_Long t a m p payload (sym unpacked_data ∙ e))

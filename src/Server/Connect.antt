-- ===== src/Server/Connect.antt =====
-- What a device does when the route server has connected it (src/apps/RSServerCommunication.cpp).
use labyrinthus.Server.Journey.{mod_small}
use labyrinthus.Base.{
  ℕ, ◌+◌, ◌%◌, ◌≤◌, ◌<◌, ◌≡◌, refl, Bytes, Bool, true, List, [], ◌∷◌, ◌++◌, some, done, codes,
  length, arith,
}
use labyrinthus.Base.Words.{int_limit}
use labyrinthus.Object.Value.{Object, word, int, scalar, row, end, object}
use labyrinthus.Object.Create.{create}
use labyrinthus.Object.Encode.{encode}
use labyrinthus.Object.Access.{
  object_by_name, uint_object_by_name, set_uint_object_by_name, put_value,
}
use labyrinthus.Object.Shape.{IsSound, normalize, depth}
use labyrinthus.Object.Description.{find_description, split_description}
use labyrinthus.Object.Value.{kind_of}
use labyrinthus.Object.Copies.{copy-normalize}
use labyrinthus.Defines.Objects.{address, address-IsSound, device_connect_response, packet}
use labyrinthus.Defines.Table.{
  structs, nesting, rs_communication_port, response_ok, create_rss_object_with_type,
}
use labyrinthus.Defines.Cmd
use labyrinthus.Socket.Packet.{
  Event, is_last_packet_ipv4, is_last_packed_from_route_server, Socket, datagram, receive_packet,
  send_to_route_server, send_to_sock_addr,
}
use labyrinthus.Socket.Delivery.{
  length-packet, arrived, receive_one, cmd_received, object_received, wrap_packet_lem,
}
use labyrinthus.Server.State.{Server}
use labyrinthus.Server.Devices.{route_server}
use labyrinthus.Server.Handlers.{response_size, address_size}
use labyrinthus.Server.Receiver.{on_device_connect_response, unpack, dispatch, handle_packet}

-- getDevicesRequest, for ten devices of any transmission rate
abbrev pub get_devices_request : Object
get_devices_request =
    object (codes "getDevicesRequest")
      (codes "word min_transmission_rate,word max_transmission_rate,int max_count")
      (codes "min_transmission_rate" ∷ codes "max_transmission_rate" ∷ codes "max_count" ∷ [])
      (row (codes "word") (scalar word 0)
        (row (codes "word") (scalar word 0) (row (codes "int") (scalar int 10) end)))

-- The socket when it has asked the route server for devices
abbrev pub asks_devices : Socket → Socket
asks_devices k = record k {
  sent =
      k.sent
      ++ ((
        route_server rs_communication_port,
        encode (packet Cmd.getdevices_request (encode get_devices_request)),
      )
          ∷ []);
}

asks_devices_lem :
    (k : Socket)
    → k.is_open ≡ true
    → send_to_route_server k Cmd.getdevices_request get_devices_request
      ≡ done (asks_devices k, true)
unfolding send_to_route_server send_to_sock_addr
asks_devices_lem k up = rw (up, wrap_packet_lem Cmd.getdevices_request get_devices_request)

device_connect_response-IsSound :
    (status t : ℕ) (a : Bytes)
    → length a < int_limit
    → IsSound structs (device_connect_response status (address t a))
unfolding IsSound structs find_description split_description kind_of
device_connect_response-IsSound status t a h =
    (refl, refl, (refl, ((refl, refl, address-IsSound t a h), tt)))

connected :
    (s : Server) (t : ℕ) (a : Bytes)
    → s.rsock.is_open ≡ true
    → length a + 6 < int_limit
    → on_device_connect_response s (device_connect_response response_ok (address (t % 256) a))
      ≡ done (record s { my_address = some (address (t % 256) a); rsock = asks_devices s.rsock })
unfolding on_device_connect_response object_by_name uint_object_by_name create_rss_object_with_type
    structs create set_uint_object_by_name put_value depth normalize
connected s t a up small = rw (
  copy-normalize nesting structs (address (t % 256) a) (address-IsSound (t % 256) a (omega arith))
      (omega arith) (omega (arith, address_size (t % 256) a)),
  mod_small (t % 256) (omega arith),
  asks_devices_lem s.rsock up,
)

-- An onDeviceConnectResponse of the route server with status OK and any address, from whatever
-- port, on an open socket whose buffer, below 2^31 bytes, holds the packet: it is received, and
-- handling it keeps the address, its type cut to a byte, as the device's own, asks the route
-- server for ten devices, and changes nothing else.
pub device_connects :
    (written : Bytes → Bool) (s : Server) (port t : ℕ) (a : Bytes) (events : List Event)
    → s.rsock.is_open ≡ true
    → length a + 11 ≤ length s.rsock.buffer
    → length s.rsock.buffer < int_limit
    → (k : Socket) × (receive_packet s.rsock (
          datagram (route_server port) 16 (
            encode (
              packet Cmd.ondeviceconnect_response
                (encode (device_connect_response response_ok (address t a)))))
          ∷ events)
        ≡ done (k, true, events))
      × (handle_packet written (record s { rsock = k })
          ≡ done (record s { my_address = some (address (t % 256) a); rsock = asks_devices k }))
unfolding handle_packet dispatch unpack is_last_packed_from_route_server is_last_packet_ipv4 arrived
    normalize depth
device_connects written s port t a events up h lt =
    let o : Object = device_connect_response response_ok (address t a) in
    let size = response_size response_ok t a in
    let bytes = encode (packet Cmd.ondeviceconnect_response (encode o)) in
    let k = arrived s.rsock (route_server port) 16 bytes Cmd.ondeviceconnect_response (encode o) in
    (
      k,
      receive_one s.rsock (route_server port) 16 events Cmd.ondeviceconnect_response (encode o) up
          (omega (arith, size, length-packet Cmd.ondeviceconnect_response (encode o))) lt,
      rw (
        cmd_received s.rsock (route_server port) 16 Cmd.ondeviceconnect_response bytes (encode o)
            (omega arith),
        object_received s.rsock (route_server port) 16 Cmd.ondeviceconnect_response bytes o
            (device_connect_response-IsSound response_ok t a (omega arith)) (omega arith)
            (omega (arith, size)),
        connected (record s { rsock = k }) t a up (omega arith),
      ),
    )

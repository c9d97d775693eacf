-- ===== src/Server/Devices.antt =====
-- The list of devices that the route server sends (src/apps/RSServerCommunication.cpp).
use labyrinthus.Server.Journey.{mod_small}
use labyrinthus.Object.Access.{array_object_by_name}
use labyrinthus.Base.{
  true, Bool, ap, ◌∙◌, codes, length-append, ◌<◌, ◌≤◌, ◌%◌, ◌+◌, ℕ, ◌≡◌, refl, Bytes, List, [], ◌∷◌,
  done, arith, length,
}
use labyrinthus.Base.Words.{int_limit}
use labyrinthus.Object.Value.{Object, Objects, nil, item, count}
use labyrinthus.Object.Encode.{encode, encode_objects}
use labyrinthus.Object.Shape.{
  IsSound, ItemsSound, normalize, normalize_objects, depth, depth_objects,
}
use labyrinthus.Object.Copies.{copy-normalize}
use labyrinthus.Defines.Objects.{
  address, address-IsSound, devices_response, devices_response-IsSound, packet,
}
use labyrinthus.Defines.Table.{structs, nesting, rs_host}
use labyrinthus.Defines.Cmd
use labyrinthus.Socket.Packet.{
  Event, is_last_packet_ipv4, is_last_packed_from_route_server, af_inet, Socket, SockAddr, datagram,
  receive_packet,
}
use labyrinthus.Socket.Delivery.{length-packet, arrived, receive_one, cmd_received, object_received}
use labyrinthus.Server.State.{Server}
use labyrinthus.Server.Receiver.{copy_all, on_get_devices_response, unpack, dispatch, handle_packet}

-- The addresses of devices in a response, each with its type
abbrev pub device_objects : List (ℕ × Bytes) → Objects
device_objects [] = nil
device_objects ((t, a) ∷ ds) = item (address t a) (device_objects ds)

-- What the device keeps of them
abbrev pub known : List (ℕ × Bytes) → List Object
known [] = []
known ((t, a) ∷ ds) = address (t % 256) a ∷ known ds

-- Where the packets of the route server are from
abbrev pub route_server : ℕ → SockAddr
route_server port = record { family = af_inet; port = port; addr = rs_host }

length-address : (t : ℕ) (a : Bytes) → length (encode (address t a)) ≡ length a + 5
unfolding encode
length-address t a = omega (arith, length-append a [])

length-devices :
    (t : ℕ) (a : Bytes) (ds : List (ℕ × Bytes))
    → length (encode_objects (device_objects ((t, a) ∷ ds)))
      ≡ length a + 5 + length (encode_objects (device_objects ds))
unfolding encode
length-devices t a ds =
    length-append (encode (address t a)) (encode_objects (device_objects ds))
    ∙ ap (λ n. n + length (encode_objects (device_objects ds))) (length-address t a)

device_count :
    (ds : List (ℕ × Bytes))
    → count (device_objects ds) ≤ length (encode_objects (device_objects ds))
device_count [] = omega arith
device_count ((t, a) ∷ ds) = omega (arith, length-devices t a ds, device_count ds)

device_objects-ItemsSound :
    (ds : List (ℕ × Bytes))
    → length (encode_objects (device_objects ds)) < int_limit
    → ItemsSound structs (codes "address_t") (device_objects ds)
unfolding IsSound
device_objects-ItemsSound [] h = tt
device_objects-ItemsSound ((t, a) ∷ ds) h =
    let size = length-devices t a ds in
    (
      refl,
      omega (arith, length-address t a),
      address-IsSound t a (omega (arith, size)),
      device_objects-ItemsSound ds (omega (arith, size)),
    )

device_objects-depth : (ds : List (ℕ × Bytes)) → depth_objects (device_objects ds) ≤ 1
unfolding depth
device_objects-depth [] = omega arith
device_objects-depth ((t, a) ∷ ds) = omega (arith, device_objects-depth ds)

copied :
    (ds : List (ℕ × Bytes))
    → length (encode_objects (device_objects ds)) < int_limit
    → copy_all (normalize_objects (device_objects ds)) ≡ done (known ds)
unfolding copy_all normalize depth
copied [] h = refl
copied ((t, a) ∷ ds) h =
    let size = length-devices t a ds in
    rw (
      copy-normalize nesting structs (address (t % 256) a)
          (address-IsSound (t % 256) a (omega (arith, size))) (omega arith)
          (omega (arith, size, length-address (t % 256) a)),
      copied ds (omega (arith, size)),
      mod_small (t % 256) (omega arith),
    )

length-response :
    (n : ℕ) (ds : List (ℕ × Bytes))
    → length (encode (devices_response n (device_objects ds)))
      ≡ 8 + length (encode_objects (device_objects ds))
unfolding encode
length-response n ds = omega (arith, length-append (encode_objects (device_objects ds)) [])

-- A getDevicesResponse of the route server with any addresses, from whatever port, on an open
-- socket whose buffer, below 2^31 bytes, holds the packet: it is received, and handling it makes
-- these addresses, with their types cut to a byte and in their order, the devices of the state,
-- and changes nothing else.
pub devices_arrive :
    (written : Bytes → Bool) (s : Server) (n port : ℕ) (ds : List (ℕ × Bytes)) (events : List Event)
    → s.rsock.is_open ≡ true
    → length (encode_objects (device_objects ds)) + 13 ≤ length s.rsock.buffer
    → length s.rsock.buffer < int_limit
    → (k : Socket) × (receive_packet s.rsock (
          datagram (route_server port) 16 (
            encode
              (packet Cmd.getdevices_response (encode (devices_response n (device_objects ds)))))
          ∷ events)
        ≡ done (k, true, events))
      × (handle_packet written (record s { rsock = k })
          ≡ done (record s { rsock = k; devices = known ds }))
unfolding handle_packet dispatch unpack on_get_devices_response is_last_packed_from_route_server
    is_last_packet_ipv4 arrived array_object_by_name normalize depth
devices_arrive written s n port ds events up h lt =
    let o : Object = devices_response n (device_objects ds) in
    let size = length-response n ds in
    let bytes = encode (packet Cmd.getdevices_response (encode o)) in
    let fits : length bytes ≤ length s.rsock.buffer =
      omega (arith, size, length-packet Cmd.getdevices_response (encode o)) in
    let sound =
      devices_response-IsSound n (device_objects ds) (omega (arith, device_count ds))
        (device_objects-ItemsSound ds (omega arith)) in
    (
      arrived s.rsock (route_server port) 16 bytes Cmd.getdevices_response (encode o),
      receive_one s.rsock (route_server port) 16 events Cmd.getdevices_response (encode o) up fits
          lt,
      rw (
        cmd_received s.rsock (route_server port) 16 Cmd.getdevices_response bytes (encode o)
            (omega arith),
        object_received s.rsock (route_server port) 16 Cmd.getdevices_response bytes o sound
            (omega (arith, device_objects-depth ds)) (omega (arith, size)),
        copied ds (omega arith),
      ),
    )

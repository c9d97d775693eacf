-- ===== src/Socket/Packet.antt =====
-- RSSUDPSocket (src/sockets/rs_socket.cpp). What the socket has sent is a list of addresses and
-- payloads; what it will receive is a list of events, so a run that waits for more has no fuel left.
use labyrinthus.Base.{
  ℕ, Bytes, Bool, true, false, List, [], ◌∷◌, ◌++◌, Option, some, none, Run, done, fault,
  out_of_fuel, ◌>>=◌, ◌==◌, bytes_eq, length, take, drop, codes, if◌then◌else◌,
}
use labyrinthus.Object.Value.{Object, dyn}
use labyrinthus.Object.Encode.{encode}
use labyrinthus.Object.Parse.{parse, parsed, rejected}
use labyrinthus.Object.Access.{
  set_uint_object_by_name, uint_object_by_name, dyn_object_by_name, put_value,
}
use labyrinthus.Defines.Table.{
  structs, nesting, create_rss_object_with_type, rs_communication_port, rs_host,
}
use labyrinthus.Defines.Cmd

abbrev pub af_inet : ℕ
af_inet = 2

abbrev pub af_inet6 : ℕ
af_inet6 = 10

-- What the code reads of a sockaddr_in or sockaddr_in6: the family, the port, the address bytes
pub record SockAddr : Type 0 where
  pub family : ℕ
  pub port : ℕ
  pub addr : Bytes

-- `buffer` holds `buff_maxlen` bytes.
pub record Socket : Type 0 where
  pub is_open : Bool
  pub sin_tmp : SockAddr
  pub slen_tmp : ℕ
  pub buffer : Bytes
  pub rso_data : Option Object
  pub sent : List (SockAddr × Bytes)

-- The outcome of one recvfrom: -1, or a datagram with its source and the length of that address
pub data Event : Type 0 where
  failed : Event
  datagram : SockAddr → ℕ → Bytes → Event

-- The object that `sendToSockAddr` builds around another
unfoldable pub wrap_packet : ℕ → Object → Run Object
wrap_packet cmd obj = do
  o ← create_rss_object_with_type (codes "packet_t")
  o' ← set_uint_object_by_name o (codes "cmd") cmd
  old ← dyn_object_by_name o' (codes "data")
  put_value o' (codes "data") (dyn (old ++ encode obj))

unfoldable pub send_to_sock_addr : Socket → SockAddr → ℕ → Object → Run (Socket × Bool)
send_to_sock_addr s sin cmd obj =
    let sending : Run (Socket × Bool) = wrap_packet cmd obj >>= λ o.
    done (record s { sent = s.sent ++ ((sin, encode o) ∷ []) }, true) in
    if s.is_open then sending else done (s, false)

unfoldable pub send_to_route_server : Socket → ℕ → Object → Run (Socket × Bool)
send_to_route_server s cmd obj =
    send_to_sock_addr s (record { family = af_inet; port = rs_communication_port; addr = rs_host })
      cmd obj

-- The address is built in `sin_tmp`, over that of the last packet.
unfoldable pub send_to_ip_address : Socket → Bytes → ℕ → Object → Run (Socket × Bool)
send_to_ip_address s addr cmd obj =
    let sia : SockAddr = record { family = af_inet; port = rs_communication_port; addr = addr } in
    send_to_sock_addr (record s { sin_tmp = sia }) sia cmd obj

-- The second test is an assignment, which is true and sets the family.
unfoldable pub is_last_packet_ipv4 : Socket → Socket × Bool
is_last_packet_ipv4 s =
    if s.slen_tmp == 16
    then (
      record s {
        sin_tmp = record { family = af_inet; port = s.sin_tmp.port; addr = s.sin_tmp.addr };
      },
      true,
    )
    else (s, false)

unfoldable pub is_last_packed_from_route_server : Socket → Socket × Bool
is_last_packed_from_route_server s =
    let (s', v4) = is_last_packet_ipv4 s in
    if v4 then (s', bytes_eq s'.sin_tmp.addr rs_host) else (s', false)

unfoldable pub get_last_cmd : Socket → Run ℕ
get_last_cmd s = elim s.rso_data [
  | none ↦ done Cmd.undefined
  | some o ↦ uint_object_by_name o (codes "cmd")
]

-- The buffer when recvfrom has written a datagram into it; more than `buff_maxlen` bytes are cut.
abbrev pub received : Bytes → Bytes → Bytes
received buffer payload = take (length buffer) payload ++ drop (length payload) buffer

-- The loop of `receivePacket`
unfoldable pub receive_loop : Socket → List Event → Run (Socket × Bool × List Event)
receive_loop s [] = out_of_fuel
receive_loop s (failed ∷ events) = done (s, false, events)
receive_loop s (datagram sin slen payload ∷ events) =
    let got : Socket = record s {
      sin_tmp = sin;
      slen_tmp = slen;
      buffer = received s.buffer payload;
    } in
    let rr = length (take (length s.buffer) payload) in
    let again = receive_loop got events in
    let unpack : Run (Socket × Bool × List Event) =
      create_rss_object_with_type (codes "packet_t") >>= λ o.
      parse nesting structs o got.buffer rr >>= elim [
        | parsed o' _ ↦ done (record got { rso_data = some o' }, true, events)
        | rejected _ ↦ again
      ] in
    if rr == 0 then again else unpack

unfoldable pub receive_packet : Socket → List Event → Run (Socket × Bool × List Event)
receive_packet s events =
    let cleared : Socket = record s { rso_data = none; slen_tmp = 1024 } in
    let loop = receive_loop cleared events in
    if s.is_open then loop else done (cleared, false, events)

-- A NULL `rso_data` is dereferenced.
unfoldable pub get_last_packet_data : Socket → Run Bytes
get_last_packet_data s = elim s.rso_data [
  | none ↦ fault
  | some o ↦ dyn_object_by_name o (codes "data")
]

-- `none` is NULL, after a payload that does not parse.
unfoldable pub get_last_packed_data_as_type : Socket → Bytes → Run (Option Object)
get_last_packed_data_as_type s type_name = do
  payload ← get_last_packet_data s
  out ← create_rss_object_with_type type_name
  r ← parse nesting structs out payload (length payload)
  done (elim r [ parsed o _ ↦ some o | rejected _ ↦ none ])

-- ===== src/Socket/Delivery.antt =====
-- What one socket sends (src/sockets/rs_socket.cpp) another receives as the same object.
use labyrinthus.Base.{
  if◌then◌else◌, ◌==◌, take_all, ℕ, ◌+◌, ◌%◌, ◌≤◌, ◌<◌, ◌≡◌, refl, ap, ◌∙◌, Bytes, true, false,
  List, [], ◌∷◌, ◌++◌, some, none, done, arith, length, take, drop, codes, length-append,
}
use labyrinthus.Base.Words.{int_limit}
use labyrinthus.Object.Value.{Object, struct_name}
use labyrinthus.Object.Create.{create}
use labyrinthus.Object.Encode.{encode}
use labyrinthus.Object.Parse.{parse, parsed}
use labyrinthus.Object.Access.{
  value_at, ident_of, value_by_name, set_uint_object_by_name, dyn_object_by_name,
  uint_object_by_name, put_value,
}
use labyrinthus.Object.Shape.{IsSound, normalize, depth, blank}
use labyrinthus.Object.Fresh.{create-blank}
use labyrinthus.Object.RoundTrip.{parse_sound, parse-encode_whole}
use labyrinthus.Defines.Table.{structs, nesting, create_rss_object_with_type}
use labyrinthus.Defines.Objects.{packet, packet-IsSound}
use labyrinthus.Socket.Packet.{
  SockAddr, Socket, Event, datagram, wrap_packet, send_to_sock_addr, receive_packet, receive_loop,
  received, get_last_cmd, get_last_packet_data, get_last_packed_data_as_type,
}

pub wrap_packet_lem : (cmd : ℕ) (o : Object) → wrap_packet cmd o ≡ done (packet cmd (encode o))
unfolding wrap_packet create_rss_object_with_type structs create set_uint_object_by_name
    dyn_object_by_name put_value
wrap_packet_lem cmd o = refl

-- The socket when the datagram has arrived
unfoldable pub arrived : Socket → SockAddr → ℕ → Bytes → ℕ → Bytes → Socket
arrived r from slen payload c p = record r {
  sin_tmp = from;
  slen_tmp = slen;
  buffer = received r.buffer payload;
  rso_data = some (packet (c % 256) p);
}

pub length-packet : (c : ℕ) (p : Bytes) → length (encode (packet c p)) ≡ length p + 5
unfolding encode
length-packet c p = omega (arith, length-append p [])

packet_created :
    (c : ℕ) (p : Bytes)
    → length p < int_limit
    → create_rss_object_with_type (codes "packet_t") ≡ done (blank (packet c p))
unfolding create_rss_object_with_type depth
packet_created c p lt =
    create-blank nesting structs (packet c p) (packet-IsSound c p lt) (omega arith)

packet_parsed :
    (c : ℕ) (p stale : Bytes)
    → length (encode (packet c p)) < int_limit
    → parse nesting structs
        (blank (packet c p))
        (encode (packet c p) ++ stale)
        (length (encode (packet c p)))
      ≡ done (parsed (packet (c % 256) p) (length (encode (packet c p))))
unfolding normalize depth
packet_parsed c p stale lt =
    parse_sound nesting structs (packet c p) stale (length (encode (packet c p)))
      (packet-IsSound c p (omega (arith, length-packet c p))) (omega arith) (omega arith) lt

packet_nonempty : (c : ℕ) (p : Bytes) → (length (encode (packet c p)) == 0) ≡ false
packet_nonempty c p = ground (arith, length-packet c p)

take_whole :
    (buffer : Bytes) (c : ℕ) (p : Bytes)
    → length (encode (packet c p)) ≤ length buffer
    → take (length buffer) (encode (packet c p)) ≡ encode (packet c p)
take_whole buffer c p h = take_all (length buffer) (encode (packet c p)) h

receive_loop_lem :
    (r : Socket) (from : SockAddr) (slen : ℕ) (events : List Event) (c : ℕ) (p : Bytes)
    → length (encode (packet c p)) ≤ length r.buffer
    → length r.buffer < int_limit
    → receive_loop r (datagram from slen (encode (packet c p)) ∷ events)
      ≡ done (arrived r from slen (encode (packet c p)) c p, true, events)
unfolding receive_loop arrived
receive_loop_lem r from slen events c p h lt =
    rw
      (
        take_whole r.buffer c p h,
        packet_nonempty c p,
        packet_created c p (omega (arith, length-packet c p)),
        packet_parsed c p (drop (length (encode (packet c p))) r.buffer) (omega arith),
      )
      (rw (take_whole r.buffer c p h))

pub receive_one :
    (r : Socket) (from : SockAddr) (slen : ℕ) (events : List Event) (c : ℕ) (p : Bytes)
    → r.is_open ≡ true
    → length (encode (packet c p)) ≤ length r.buffer
    → length r.buffer < int_limit
    → receive_packet r (datagram from slen (encode (packet c p)) ∷ events)
      ≡ done (arrived r from slen (encode (packet c p)) c p, true, events)
unfolding receive_packet arrived
receive_one r from slen events c p up h lt =
    let cleared : Socket = record r { rso_data = none; slen_tmp = 1024 } in
    let all = datagram from slen (encode (packet c p)) ∷ events in
    ap (λ b. if b then receive_loop cleared all else done (cleared, false, all)) up
    ∙ receive_loop_lem cleared from slen events c p h lt

pub cmd_received :
    (r : Socket) (from : SockAddr) (slen cmd : ℕ) (bytes p : Bytes)
    → cmd < 256
    → get_last_cmd (arrived r from slen bytes cmd p) ≡ done cmd
unfolding get_last_cmd arrived uint_object_by_name value_by_name ident_of value_at
cmd_received r from slen cmd bytes p small = ap done (omega arith)

pub object_received :
    (r : Socket) (from : SockAddr) (slen cmd : ℕ) (bytes : Bytes) (o : Object)
    → IsSound structs o
    → depth o ≤ nesting
    → length (encode o) < int_limit
    → get_last_packed_data_as_type (arrived r from slen bytes cmd (encode o)) (struct_name o)
      ≡ done (some (normalize o))
unfolding create_rss_object_with_type get_last_packed_data_as_type get_last_packet_data arrived
    dyn_object_by_name value_by_name ident_of value_at
object_received r from slen cmd bytes o sound deep lt =
    rw (
      create-blank nesting structs o sound deep,
      parse-encode_whole nesting structs o sound deep lt,
    )

-- A sound object of a struct of the table that an open socket sends with a command below 256 is
-- received by an open socket whose buffer, below 2^31 bytes, holds the packet: that socket reads
-- the command, and unpacks the object with its scalars cut to their widths, whatever it held
-- before.
pub delivery :
    (s r : Socket) (to from : SockAddr) (slen cmd : ℕ) (o : Object) (events : List Event)
    → s.is_open ≡ true
    → r.is_open ≡ true
    → cmd < 256
    → IsSound structs o
    → depth o ≤ nesting
    → length (encode o) + 5 ≤ length r.buffer
    → length r.buffer < int_limit
    → (bytes : Bytes) × (s' r' : Socket) × (send_to_sock_addr s to cmd o ≡ done (s', true))
      × (s'.sent ≡ s.sent ++ ((to, bytes) ∷ []))
      × (receive_packet r (datagram from slen bytes ∷ events) ≡ done (r', true, events))
      × (get_last_cmd r' ≡ done cmd)
      × (get_last_packed_data_as_type r' (struct_name o) ≡ done (some (normalize o)))
delivery s r to from slen cmd o events up ur small sound deep fits lt =
    let p = encode o in
    let bytes = encode (packet cmd p) in
    (
      bytes,
      record s { sent = s.sent ++ ((to, bytes) ∷ []) },
      arrived r from slen bytes cmd p,
      unfold send_to_sock_addr in rw (up, wrap_packet_lem cmd o),
      refl,
      receive_one r from slen events cmd p ur (omega (arith, length-packet cmd p)) lt,
      cmd_received r from slen cmd bytes p small,
      object_received r from slen cmd bytes o sound deep (omega arith),
    )

-- ===== src/Server/Peeling.antt =====
-- One step of a packet through a router (src/apps/RSRouter.cpp).
use labyrinthus.Base.{
  fault, ℕ, ◌+◌, ◌%◌, ◌<◌, ◌≡◌, ap, Bytes, Bool, true, [], ◌∷◌, ◌++◌, some, done, arith, length,
  take, length-append, take-append_self, append-nil,
}
use mathlib.Core.Path.{subst}
use labyrinthus.Base.Words.{int_limit}
use labyrinthus.Object.Value.{Object}
use labyrinthus.Object.Encode.{encode}
use labyrinthus.Object.Parse.{parse, parsed}
use labyrinthus.Object.Access.{
  uint_object_by_name, dyn_object_by_name, object_by_name, put_value, copy,
}
use labyrinthus.Object.Shape.{normalize, blank, depth}
use labyrinthus.Object.RoundTrip.{parse-encode_whole}
use labyrinthus.Object.Copies.{copy-normalize}
use labyrinthus.Object.Reuse.{parse_reuse, IsPlain}
use labyrinthus.Defines.Table.{structs, nesting, rs_communication_port}
use labyrinthus.Defines.AddrType
use labyrinthus.Defines.Cmd
use labyrinthus.Defines.Objects.{
  address, encrypted_packet, chain_row, data_packet, packet, chain_row-IsSound,
}
use labyrinthus.Socket.Packet.{Socket, SockAddr, af_inet, send_to_ip_address, send_to_sock_addr}
use labyrinthus.Socket.Delivery.{wrap_packet_lem}
use labyrinthus.Server.State.{Server}
use labyrinthus.Server.Onion.{in_addr_of}
use labyrinthus.Server.Routing.{apply_and_route_rss_packet, forward, decrypt_data}

-- A layer of a chain: the type and the bytes of the address, the method, what it holds
abbrev pub layer : ℕ → Bytes → ℕ → Bytes → Object
layer t a m p = chain_row (address t a) (encrypted_packet m p)

pub layer_bytes :
    (t : ℕ) (a : Bytes) (m : ℕ) (p : Bytes)
    → length (encode (layer t a m p)) ≡ length a + length p + 10
unfolding encode
layer_bytes t a m p = simp (length-append, append-nil) (omega arith)

pub copy-layer :
    (t : ℕ) (a : Bytes) (m : ℕ) (p : Bytes)
    → length a + length p + 10 < int_limit
    → copy nesting structs (layer t a m p) ≡ done (some (layer (t % 256) a (m % 256) p))
unfolding normalize depth
copy-layer t a m p h =
    copy-normalize nesting structs (layer t a m p)
      (chain_row-IsSound t a m p (omega arith) (omega arith)) (omega arith)
      (omega (arith, layer_bytes t a m p))

-- A layer parses over another.
parse-layer :
    (t : ℕ) (a : Bytes) (m : ℕ) (p : Bytes) (t' : ℕ) (a' : Bytes) (m' : ℕ) (p' : Bytes)
    → length a + length p + 10 < int_limit
    → parse nesting structs
        (layer t' a' m' p')
        (encode (layer t a m p))
        (length (encode (layer t a m p)))
      ≡ done (parsed (layer (t % 256) a (m % 256) p) (length (encode (layer t a m p))))
unfolding normalize depth IsPlain blank
parse-layer t a m p t' a' m' p' h =
    parse_reuse nesting structs (layer t' a' m' p') (encode (layer t a m p))
      (length (encode (layer t a m p))) ((tt, (tt, tt)), ((tt, (tt, tt)), tt))
      (parse-encode_whole nesting structs (layer t a m p)
        (chain_row-IsSound t a m p (omega arith) (omega arith)) (omega arith)
        (omega (arith, layer_bytes t a m p)))

pub in_addr_lem : (ip : Bytes) → length ip ≡ 4 → in_addr_of ip ≡ done ip
unfolding in_addr_of
in_addr_lem ip h =
    rw h (ap done (subst (λ n. take n (ip ++ (0 ∷ [])) ≡ ip) h (take-append_self ip (0 ∷ []))))

-- The socket when it has sent an object to an address
abbrev pub sent_on : Socket → Bytes → Object → Socket
sent_on k ip o =
    let sia : SockAddr = record { family = af_inet; port = rs_communication_port; addr = ip } in
    record k {
      sin_tmp = sia;
      sent = k.sent ++ ((sia, encode (packet Cmd.send_packet (encode o))) ∷ []);
    }

send_lem :
    (k : Socket) (ip : Bytes) (o : Object)
    → k.is_open ≡ true
    → send_to_ip_address k ip Cmd.send_packet o ≡ done (sent_on k ip o, true)
unfolding send_to_ip_address send_to_sock_addr
send_lem k ip o up = rw (up, wrap_packet_lem Cmd.send_packet o)

-- An open router that gets a packet whose chain begins with an IPv4 address of four bytes and holds
-- a layer that is smaller than 2^31 bytes sends the packet on to that address, with that layer, its
-- scalars cut to a byte, as the chain, and with the data as they were.
pub forward_peels :
    (written : Bytes → Bool) (s : Server) (ip : Bytes) (m : ℕ) (t : ℕ) (a : Bytes) (m' : ℕ)
    (p payload : Bytes)
    → s.rsock.is_open ≡ true
    → length ip ≡ 4
    → length a + length p + 32 < int_limit
    → apply_and_route_rss_packet written s
        (data_packet (layer AddrType.ip4 ip m (encode (layer t a m' p))) payload)
      ≡ done (
        record s {
          rsock = sent_on s.rsock ip (data_packet (layer (t % 256) a (m' % 256) p) payload);
        },
        true,
      )
unfolding apply_and_route_rss_packet forward uint_object_by_name dyn_object_by_name object_by_name
    put_value decrypt_data
forward_peels written s ip m t a m' p payload up four small = rw (
  copy-layer AddrType.ip4 ip m (encode (layer t a m' p)) (omega (arith, layer_bytes t a m' p)),
  parse-layer t a m' p AddrType.ip4 ip m (encode (layer t a m' p)) (omega arith),
  in_addr_lem ip four,
  send_lem s.rsock ip (data_packet (layer (t % 256) a (m' % 256) p) payload) up,
)

in_addr_short : (ip : Bytes) → length ip < 3 → in_addr_of ip ≡ fault
unfolding in_addr_of
in_addr_short ip h = ground arith

-- A packet whose chain begins with an IPv4 layer with an address of fewer than three bytes, and
-- holds a layer that is smaller than 2^31 bytes, makes the router read behind the address, which
-- is undefined.
pub forward_short :
    (written : Bytes → Bool) (s : Server) (ip : Bytes) (m : ℕ) (t : ℕ) (a : Bytes) (m' : ℕ)
    (p payload : Bytes)
    → length ip < 3
    → length a + length p + 32 < int_limit
    → apply_and_route_rss_packet written s
        (data_packet (layer AddrType.ip4 ip m (encode (layer t a m' p))) payload)
      ≡ fault
unfolding apply_and_route_rss_packet forward uint_object_by_name dyn_object_by_name object_by_name
    put_value decrypt_data
forward_short written s ip m t a m' p payload short small = rw (
  copy-layer AddrType.ip4 ip m (encode (layer t a m' p)) (omega (arith, layer_bytes t a m' p)),
  parse-layer t a m' p AddrType.ip4 ip m (encode (layer t a m' p)) (omega arith),
  in_addr_short ip short,
)

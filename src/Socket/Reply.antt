-- ===== src/Socket/Reply.antt =====
-- The address of the last packet, and the answer to it (src/sockets/rs_socket.cpp).
use labyrinthus.Base.{
  ℕ, ◌≤◌, ◌<◌, ◌≡◌, refl, Bytes, Bool, true, false, List, [], ◌∷◌, ◌++◌, Option, some, none, Run,
  done, ◌==◌, length, if◌then◌else◌,
}
use labyrinthus.Base.Words.{int_limit}
use labyrinthus.Object.Value.{Object}
use labyrinthus.Object.Encode.{encode}
use labyrinthus.Defines.Table.{rs_communication_port}
use labyrinthus.Defines.Objects.{packet}
use labyrinthus.Socket.Packet.{
  af_inet, af_inet6, SockAddr, Socket, Event, datagram, send_to_sock_addr, send_to_ip_address,
  is_last_packet_ipv4, receive_packet,
}
use labyrinthus.Socket.Delivery.{arrived, wrap_packet_lem, receive_one}

-- `sendToIPAddress` for an in6_addr
unfoldable pub send_to_ip6_address : Socket → Bytes → ℕ → Object → Run (Socket × Bool)
send_to_ip6_address s addr cmd obj =
    let sia : SockAddr = record { family = af_inet6; port = rs_communication_port; addr = addr } in
    send_to_sock_addr (record s { sin_tmp = sia }) sia cmd obj

-- The second test is an assignment, as in `is_last_packet_ipv4`; a sockaddr_in6 has 28 bytes.
unfoldable pub is_last_packet_ipv6 : Socket → Socket × Bool
is_last_packet_ipv6 s =
    if s.slen_tmp == 28
    then (
      record s {
        sin_tmp = record { family = af_inet6; port = s.sin_tmp.port; addr = s.sin_tmp.addr };
      },
      true,
    )
    else (s, false)

-- `none` is NULL.
unfoldable pub get_last_packet_sock_addr_in : Socket → Socket × Option SockAddr
get_last_packet_sock_addr_in s =
    let (s', v4) = is_last_packet_ipv4 s in (s', if v4 then some s'.sin_tmp else none)

unfoldable pub get_last_packet_sock_addr_in6 : Socket → Socket × Option SockAddr
get_last_packet_sock_addr_in6 s =
    let (s', v6) = is_last_packet_ipv6 s in (s', if v6 then some s'.sin_tmp else none)

unfoldable pub send_to_last_address : Socket → ℕ → Object → Run (Socket × Bool)
send_to_last_address s cmd obj =
    let (s', sa) = get_last_packet_sock_addr_in s in
    let (s'', sa6) = get_last_packet_sock_addr_in6 s' in
    elim sa [
      | some a ↦ send_to_ip_address s' a.addr cmd obj
      | none ↦ elim sa6 [
        | some a ↦ send_to_ip6_address s'' a.addr cmd obj
        | none ↦ done (s'', false)
      ]
    ]

-- An open socket whose buffer, below 2^31 bytes, holds the packet that an IPv4 sender sent:
-- sendToLastAddress then sends to that sender's address, at the port 7778 whatever the port was
-- that the sender used.
pub answer_to_sender :
    (r : Socket) (from : SockAddr) (events : List Event) (c : ℕ) (p : Bytes) (cmd : ℕ) (o : Object)
    → r.is_open ≡ true
    → length (encode (packet c p)) ≤ length r.buffer
    → length r.buffer < int_limit
    → (r₁ r₂ : Socket) × (receive_packet r (datagram from 16 (encode (packet c p)) ∷ events)
        ≡ done (r₁, true, events))
      × (send_to_last_address r₁ cmd o ≡ done (r₂, true))
      × (r₂.sent
          ≡ r.sent
            ++ ((
              record { family = af_inet; port = rs_communication_port; addr = from.addr },
              encode (packet cmd (encode o)),
            )
                ∷ []))
unfolding send_to_last_address get_last_packet_sock_addr_in is_last_packet_ipv4 send_to_ip_address
    send_to_sock_addr arrived
answer_to_sender r from events c p cmd o up h lt =
    let r₁ = arrived r from 16 (encode (packet c p)) c p in
    let sia : SockAddr = record {
      family = af_inet;
      port = rs_communication_port;
      addr = from.addr;
    } in
    (
      r₁,
      record r₁ { sin_tmp = sia; sent = r.sent ++ ((sia, encode (packet cmd (encode o))) ∷ []) },
      receive_one r from 16 events c p up h lt,
      rw (up, wrap_packet_lem cmd o),
      refl,
    )

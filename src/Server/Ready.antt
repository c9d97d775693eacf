-- ===== src/Server/Ready.antt =====
-- That the socket of a device stays open and its buffer keeps its size, through all the loops
-- (src/apps/RSServerCommunication.cpp, src/sockets/rs_socket.cpp).
use labyrinthus.Dns.Message.{parse_request}
use labyrinthus.Server.Requests.{send_dns_response}
use labyrinthus.Base.{
  List, ◌⊎◌, sym, Run, codes, ap, ◌<◌, ◌>>=◌, ◌∙◌, inr, inl, Option-cases, >>=-eq-done, Option, ℕ,
  ◌≡◌, Bytes, Bool, true, done, length, arith,
}
use labyrinthus.Object.Value.{Object}
use labyrinthus.Socket.Packet.{
  receive_packet, Event, get_last_packed_data_as_type, get_last_cmd, Socket,
  is_last_packed_from_route_server, is_last_packet_ipv4,
}
use labyrinthus.Server.Steps.{Step, connect, packet, request, tunnelled}
use labyrinthus.Server.Receiver.{
  on_get_devices_response, on_device_connect_response, on_get_chains_response,
  on_set_chains_response, unpack, bind_chain, dispatch, answer_request, handle_packet,
}
use labyrinthus.Server.Requests.{dns_datagram}
use labyrinthus.Server.Start.{on_device_connect}
use labyrinthus.Server.Moves.{dispatch-cases}
use mathlib.Core.Path.{subst}
use labyrinthus.Base.Words.{int_limit}
use labyrinthus.Object.Typed.{Post-done}
use labyrinthus.Socket.Received.{Leaves, receive_packet-Fits}
use labyrinthus.Server.State.{Server}
use labyrinthus.Server.Routing.{apply_and_route_rss_packet}
use labyrinthus.Server.Sockets.{
  Same, sized, send_to_route_server-sized, on_dns_request-Same, tunnel_packet-Same,
  apply_and_route-Same,
}

done-Same : (s s' : Server) → done s ≡ done s' → Same s s'
done-Same s s' h = cc

unpack-Same :
    (s : Server) (n : Bytes) (handler : Object → Run Server) (s' : Server)
    → ((o : Object) → handler o ≡ done s' → Same s s')
    → unpack s n handler ≡ done s'
    → Same s s'
unfolding unpack
unpack-Same s n handler s' k h =
    let (r, got, h₁) = >>=-eq-done (get_last_packed_data_as_type s.rsock n) _ h in
    elim (Option-cases r) [
      | inl nothing ↦ done-Same s s' (rw nothing at h₁)
      | inr (o, e) ↦ k o (rw e at h₁)
    ]

answer_request-Same :
    (s : Server) (crc : ℕ) (addr : Object) (ip : Option Bytes)
    → Same s (answer_request s crc addr ip)
unfolding answer_request send_dns_response
answer_request-Same s crc addr ip = ground arith

bind_chain-Same :
    (s : Server) (o : Object) (crc : ℕ) (s' : Server) → bind_chain s o crc ≡ done s' → Same s s'
unfolding bind_chain
bind_chain-Same s o crc s' h = ground arith

on_get_chains_response-Same :
    (s : Server) (o : Object) (s' : Server) → on_get_chains_response s o ≡ done s' → Same s s'
unfolding on_get_chains_response
on_get_chains_response-Same s o s' h = grind (arith, bind_chain-Same s o, answer_request-Same)

other_responses-Same :
    (s : Server) (o : Object) (s' : Server)
    → (on_set_chains_response s o ≡ done s')
      ⊎ ((on_device_connect_response s o ≡ done s') ⊎ (on_get_devices_response s o ≡ done s'))
    → Same s s'
unfolding on_set_chains_response on_device_connect_response on_get_devices_response
other_responses-Same s o s' (inl h) = ground arith
other_responses-Same s o s' (inr (inl h)) = grind (arith, send_to_route_server-sized s.rsock)
other_responses-Same s o s' (inr (inr h)) = ground arith

packet_handler-Same :
    (written : Bytes → Bool) (s : Server) (o : Object) (s' : Server)
    → (apply_and_route_rss_packet written s o >>= λ r. done r.0) ≡ done s'
    → Same s s'
packet_handler-Same written s o s' h = grind (arith, apply_and_route-Same written s o)

dispatch-Same :
    (written : Bytes → Bool) (s : Server) (from : Bool) (cmd_id : ℕ) (s' : Server)
    → dispatch written s from cmd_id ≡ done s'
    → Same s s'
dispatch-Same written s from cmd_id s' h =
    dispatch-cases (Same s s') written s from cmd_id s'
      (unpack-Same s (codes "getChainsResponse") (on_get_chains_response s) s'
        (λ o. on_get_chains_response-Same s o s'))
      (unpack-Same s (codes "setChainsResponse") (on_set_chains_response s) s'
        (λ o e. other_responses-Same s o s' (inl e)))
      (unpack-Same s (codes "onDeviceConnectResponse") (on_device_connect_response s) s'
        (λ o e. other_responses-Same s o s' (inr (inl e))))
      (unpack-Same s (codes "getDevicesResponse") (on_get_devices_response s) s'
        (λ o e. other_responses-Same s o s' (inr (inr e))))
      (unpack-Same s (codes "data_packet_t")
        (λ o. apply_and_route_rss_packet written s o >>= λ r. done r.0) s'
        (λ o. packet_handler-Same written s o s'))
      (done-Same s s') h

-- The device's socket after a round: open, with a buffer of that size
is_last-sized : (k : Socket) → sized (is_last_packed_from_route_server k).0 ≡ sized k
unfolding is_last_packed_from_route_server is_last_packet_ipv4
is_last-sized k = ground arith

-- The socket is open, and its buffer is of less than 2^31 bytes.
abbrev pub IsReady : Socket → Type 0
IsReady k = (k.is_open ≡ true) × (length k.buffer < int_limit)

pub Same-IsReady : (s s' : Server) → Same s s' → IsReady s.rsock → IsReady s'.rsock
Same-IsReady s s' same (up, small) =
    (ap (λ v. v.0) same ∙ up, subst (λ n. n < int_limit) (sym (ap (λ v. v.1) same)) small)

was_received :
    (k₀ k : Socket) (events rest : List Event) (k' : Socket)
    → sized k' ≡ sized k
    → receive_packet k₀ events ≡ done (k, true, rest)
    → IsReady k₀
    → IsReady k'
was_received k₀ k events rest k' same got (up, small) =
    let (open_still, size, _) =
      Post-done (Leaves k₀.is_open (length k₀.buffer)) (receive_packet k₀ events) (k, true, rest)
        (receive_packet-Fits k₀ events) got in
    (
      ap (λ v. v.0) same ∙ open_still ∙ up,
      subst (λ n. n < int_limit) (sym (ap (λ v. v.1) same ∙ size)) small,
    )

pub Step-IsReady :
    (written : Bytes → Bool) (s s' : Server)
    → Step written s s'
    → IsReady s.rsock
    → IsReady s'.rsock
unfolding dns_datagram on_device_connect handle_packet
Step-IsReady written s s' (connect h) ready =
    Same-IsReady s s' (grind (arith, send_to_route_server-sized s.rsock)) ready
Step-IsReady written s s' (packet k events rest got h) (up, small) =
    let (cmd_id, _, q) = >>=-eq-done (get_last_cmd k) _ h in
    let from = is_last_packed_from_route_server k in
    Same-IsReady (record s { rsock = from.0 }) s'
      (dispatch-Same written (record s { rsock = from.0 }) from.1 cmd_id s' q)
      (was_received s.rsock k events rest from.0 (is_last-sized k) got (up, small))
Step-IsReady written s s' (request now u sa buffer h) ready =
    elim (Option-cases (parse_request buffer)) [
      | inl nothing ↦ Same-IsReady s s' (done-Same s s' (rw (dns_datagram, nothing) at h)) ready
      | inr (r, asked) ↦
          Same-IsReady s s'
            (on_dns_request-Same s now r.address r.dns_type u sa buffer s'
              (rw (dns_datagram, asked) at h))
            ready
    ]
Step-IsReady written s s' (tunnelled now rands buffer h) ready =
    Same-IsReady s s' (tunnel_packet-Same written now rands s buffer s' h) ready

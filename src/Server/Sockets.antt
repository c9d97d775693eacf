-- ===== src/Server/Sockets.antt =====
-- What no function of the device changes of its socket: that it is open, and the size of its buffer
-- (src/apps/RSServerCommunication.cpp, RSRouter.cpp, RSDNSServer.cpp).
use labyrinthus.Defines.Table.{rs_communication_port}
use labyrinthus.Dns.Message.{DnsType}
use labyrinthus.Address.Binding.{chain_id, client_id}
use labyrinthus.Server.Requests.{send_dns_response, serve_request, on_dns_request}
use labyrinthus.Server.Tunnel.{
  ip_dst_of, is_to_chain, ip_src_of, is_ip4, to_chain, tunnel_packet, into_chain,
}
use labyrinthus.Server.Clients.{client_info, get_client_info_by_id, use_client}
use labyrinthus.Base.{
  ◌∙◌, get_elem?, inr, inl, Option-cases, ◌&&◌, none, some, >>=-eq-done, Bool-cases, Option, ℕ, ◌≡◌,
  Bytes, Bool, done, length, arith,
}
use labyrinthus.Object.Value.{Object}
use labyrinthus.Socket.Packet.{
  af_inet, SockAddr, Socket, send_to_sock_addr, send_to_ip_address, send_to_route_server,
}
use labyrinthus.Server.State.{BindedChain, Server, ClientObject}
use labyrinthus.Server.Bindings.{get_binded_chain_by_address}
use labyrinthus.Server.Routing.{deliver_to_hash, deliver, apply_and_route_rss_packet, forward}

abbrev pub sized : Socket → Bool × ℕ
sized k = (k.is_open, length k.buffer)

abbrev pub Same : Server → Server → Type 0
Same s s' = sized s'.rsock ≡ sized s.rsock

send_to_sock_addr-sized :
    (k : Socket) (sa : SockAddr) (cmd : ℕ) (o : Object) (r : Socket × Bool)
    → send_to_sock_addr k sa cmd o ≡ done r
    → sized r.0 ≡ sized k
unfolding send_to_sock_addr
send_to_sock_addr-sized k sa cmd o r h = ground arith

pub send_to_route_server-sized :
    (k : Socket) (cmd : ℕ) (o : Object) (r : Socket × Bool)
    → send_to_route_server k cmd o ≡ done r
    → sized r.0 ≡ sized k
unfolding send_to_route_server
send_to_route_server-sized k cmd o r h = grind (arith, send_to_sock_addr-sized k)

send_to_ip_address-sized :
    (k : Socket) (ip : Bytes) (cmd : ℕ) (o : Object) (r : Socket × Bool)
    → send_to_ip_address k ip cmd o ≡ done r
    → sized r.0 ≡ sized k
unfolding send_to_ip_address
send_to_ip_address-sized k ip cmd o r h =
    let sia : SockAddr = record { family = af_inet; port = rs_communication_port; addr = ip } in
    send_to_sock_addr-sized (record k { sin_tmp = sia }) sia cmd o r h

forward-Same :
    (s : Server) (o c a : Object) (inner : Bytes) (r : Server × Bool)
    → forward s o c a inner ≡ done r
    → Same s r.0
unfolding forward
forward-Same s o c a inner r h = grind (arith, send_to_ip_address-sized s.rsock)

get_binded_chain_by_address-Same :
    (s : Server) (addr : Object) (r : Server × Option BindedChain)
    → get_binded_chain_by_address s addr ≡ done r
    → Same s r.0
unfolding get_binded_chain_by_address
get_binded_chain_by_address-Same s addr r h = grind (arith, send_to_route_server-sized s.rsock)

deliver-Same :
    (written : Bytes → Bool) (s : Server) (co : ClientObject) (e : Bytes) (r : Server × Bool)
    → deliver written s co e ≡ done r
    → Same s r.0
unfolding deliver
deliver-Same written s co e r h = grind (arith, get_binded_chain_by_address-Same s)

deliver_to_hash-Same :
    (written : Bytes → Bool) (s : Server) (a : Object) (e : Bytes) (r : Server × Bool)
    → deliver_to_hash written s a e ≡ done r
    → Same s r.0
unfolding deliver_to_hash
deliver_to_hash-Same written s a e r h = grind (arith, deliver-Same written s)

pub apply_and_route-Same :
    (written : Bytes → Bool) (s : Server) (o : Object) (r : Server × Bool)
    → apply_and_route_rss_packet written s o ≡ done r
    → Same s r.0
unfolding apply_and_route_rss_packet
apply_and_route-Same written s o r h = grind (arith, deliver_to_hash-Same written s, forward-Same s)

pub on_dns_request-Same :
    (s : Server) (now : ℕ) (name : Bytes) (type : DnsType) (u : ℕ) (sa all : Bytes) (s' : Server)
    → on_dns_request s now name type u sa all ≡ done s'
    → Same s s'
unfolding on_dns_request serve_request send_dns_response
on_dns_request-Same s now name type u sa all s' h =
    grind (arith, get_binded_chain_by_address-Same s)

use_client-Same :
    (s : Server) (rands : ℕ → ℕ) (i : ℕ) (co : ClientObject) (s' : Server)
    → use_client s rands i co ≡ done s'
    → Same s s'
unfolding use_client
use_client-Same s rands i co s' h = grind (arith, send_to_route_server-sized s.rsock)

client_info-Same :
    (now : ℕ) (rands : ℕ → ℕ) (s : Server) (i : ℕ) (co : ClientObject)
    (r : Server × Option ClientObject)
    → client_info now rands s i co ≡ done r
    → Same s r.0
unfolding client_info
client_info-Same now rands s i co r h = grind (arith, use_client-Same s rands i co)

get_client_info_by_id-Same :
    (now : ℕ) (rands : ℕ → ℕ) (s : Server) (i : ℕ) (r : Server × Option ClientObject)
    → get_client_info_by_id now rands s i ≡ done r
    → Same s r.0
unfolding get_client_info_by_id
get_client_info_by_id-Same now rands s i r h = grind (arith, client_info-Same now rands s i)

into_chain-Same :
    (written : Bytes → Bool) (s : Server) (ca : ClientObject) (buffer : Bytes)
    (bc : Option BindedChain) (s' : Server)
    → into_chain written s ca buffer bc ≡ done s'
    → Same s s'
unfolding into_chain
into_chain-Same written s ca buffer none s' h = ground arith
into_chain-Same written s ca buffer (some bc) s' h = grind (arith, apply_and_route-Same written s)

to_chain-Same :
    (written : Bytes → Bool) (now : ℕ) (rands : ℕ → ℕ) (s : Server) (buffer : Bytes) (s' : Server)
    → to_chain written now rands s buffer ≡ done s'
    → Same s s'
unfolding to_chain
to_chain-Same written now rands s buffer s' h =
    let (info, e, q) =
      >>=-eq-done (get_client_info_by_id now rands s (client_id (ip_src_of buffer))) _ h in
    let same = get_client_info_by_id-Same now rands s (client_id (ip_src_of buffer)) info e in
    elim (Option-cases info.1) [
      | inl nothing ↦ ground (arith, same)
      | inr (ca, known) ↦
          into_chain-Same written info.0 ca buffer
            (get_elem? info.0.binded_chains (chain_id (ip_dst_of buffer))) s' (rw known at q)
          ∙ same
    ]

pub tunnel_packet-Same :
    (written : Bytes → Bool) (now : ℕ) (rands : ℕ → ℕ) (s : Server) (buffer : Bytes) (s' : Server)
    → tunnel_packet written now rands s buffer ≡ done s'
    → Same s s'
unfolding tunnel_packet
tunnel_packet-Same written now rands s buffer s' h =
    elim (Bool-cases (is_ip4 buffer && is_to_chain buffer)) [
      | inl yes_chain ↦ to_chain-Same written now rands s buffer s' (rw yes_chain at h)
      | inr other ↦ ground (arith, other)
    ]

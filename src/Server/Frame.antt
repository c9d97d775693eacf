-- ===== src/Server/Frame.antt =====
-- What most functions of the device leave as it is: the bound chains, the counter of their addresses
-- and the clients (src/apps/RSRouter.cpp, RSServerCommunication.cpp, RSDNSServer.cpp).
use labyrinthus.Dns.Message.{DnsType}
use labyrinthus.Server.Requests.{send_dns_response, serve_request, on_dns_request}
use labyrinthus.Server.Tunnel.{into_chain}
use labyrinthus.Base.{none, some, ℕ, arith, ◌≡◌, Bytes, Bool, List, Option, done}
use labyrinthus.Object.Value.{Object}
use labyrinthus.Server.State.{Server, ClientObject, BindedChain}
use labyrinthus.Server.Bindings.{get_binded_chain_by_address}
use labyrinthus.Server.Routing.{deliver_to_hash, deliver, apply_and_route_rss_packet, forward}

-- The chains, the counter of their addresses, and the clients of a state
abbrev pub view : Server → List BindedChain × Bytes × List ClientObject
view s = (s.binded_chains, s.binded_ip, s.registred_clients)

abbrev pub Keeps : Server → Server → Type 0
Keeps s s' = view s' ≡ view s

abbrev pub KeepsFst : (A : Type 0) → Server → Server × A → Type 0
KeepsFst A s r = Keeps s r.0

forward-Keeps :
    (s : Server) (o c a : Object) (inner : Bytes) (r : Server × Bool)
    → forward s o c a inner ≡ done r
    → Keeps s r.0
unfolding forward
forward-Keeps s o c a inner r h = ground arith

pub get_binded_chain_by_address-Keeps :
    (s : Server) (addr : Object) (r : Server × Option BindedChain)
    → get_binded_chain_by_address s addr ≡ done r
    → Keeps s r.0
unfolding get_binded_chain_by_address
get_binded_chain_by_address-Keeps s addr r h = ground arith

deliver-Keeps :
    (written : Bytes → Bool) (s : Server) (co : ClientObject) (e : Bytes) (r : Server × Bool)
    → deliver written s co e ≡ done r
    → Keeps s r.0
unfolding deliver
deliver-Keeps written s co e r h = grind (arith, get_binded_chain_by_address-Keeps s)

deliver_to_hash-Keeps :
    (written : Bytes → Bool) (s : Server) (a : Object) (e : Bytes) (r : Server × Bool)
    → deliver_to_hash written s a e ≡ done r
    → Keeps s r.0
unfolding deliver_to_hash
deliver_to_hash-Keeps written s a e r h = grind (arith, deliver-Keeps written s)

pub apply_and_route-Keeps :
    (written : Bytes → Bool) (s : Server) (o : Object) (r : Server × Bool)
    → apply_and_route_rss_packet written s o ≡ done r
    → Keeps s r.0
unfolding apply_and_route_rss_packet
apply_and_route-Keeps written s o r h =
    grind (arith, deliver_to_hash-Keeps written s, forward-Keeps s)

pub on_dns_request-Keeps :
    (s : Server) (now : ℕ) (name : Bytes) (type : DnsType) (u : ℕ) (sa all : Bytes) (s' : Server)
    → on_dns_request s now name type u sa all ≡ done s'
    → Keeps s s'
unfolding on_dns_request serve_request send_dns_response
on_dns_request-Keeps s now name type u sa all s' h =
    grind (arith, get_binded_chain_by_address-Keeps s)

pub into_chain-Keeps :
    (written : Bytes → Bool) (s : Server) (ca : ClientObject) (buffer : Bytes)
    (bc : Option BindedChain) (s' : Server)
    → into_chain written s ca buffer bc ≡ done s'
    → Keeps s s'
unfolding into_chain
into_chain-Keeps written s ca buffer none s' h = ground arith
into_chain-Keeps written s ca buffer (some bc) s' h = grind (arith, apply_and_route-Keeps written s)

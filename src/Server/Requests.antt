-- ===== src/Server/Requests.antt =====
-- A DNS request is answered, or waits for its chain (src/apps/RSDNSServer.cpp).
use labyrinthus.Base.{ℕ, Bytes, [], ◌∷◌, ◌++◌, Option, some, none, Run, done, ◌>>=◌, codes}
use labyrinthus.Object.Value.{Object}
use labyrinthus.Object.Access.{set_uint_object_by_name}
use labyrinthus.Defines.Table.{create_rss_object_with_type}
use labyrinthus.Defines.AddrType
use labyrinthus.Checksum.Crc.{get_crc}
use labyrinthus.Dns.Message.{parse_request, DnsType, a_record, any_record, dns_response}
use labyrinthus.Dns.Pending.{DnsRequests}
use labyrinthus.Server.State.{Server}
use labyrinthus.Server.Edit.{append_dyn}
use labyrinthus.Server.Bindings.{get_binded_chain_by_address}

-- `sendDNSResponse`
unfoldable pub send_dns_response : Server → DnsRequests → Option Bytes → Server
send_dns_response s rt ip = record s {
  dns_sent = s.dns_sent ++ ((rt.sockaddr_for_response, dns_response rt.all_request ip) ∷ []);
}

-- The object that a name is asked for by
unfoldable pub domain_object : Bytes → Run Object
domain_object name = do
  a ← create_rss_object_with_type (codes "address_t")
  a' ← set_uint_object_by_name a (codes "type") AddrType.domain
  append_dyn a' (codes "address") name

-- The body of `onDNSRequest` for the types that it serves
unfoldable pub serve_request : Server → ℕ → Bytes → ℕ → Bytes → Bytes → Run Server
serve_request s now name request_unique sockaddr all = do
  asked_for ← domain_object name
  let new_request : DnsRequests = record {
    address_crc = get_crc name;
    sockaddr_for_response = sockaddr;
    dns_req_unique = request_unique;
    last_request_time = now;
    all_request = all;
    asked = asked_for;
  }
  found ← get_binded_chain_by_address s asked_for
  elim found.1 [
    | none ↦ done (record found.0 { dns_requests = found.0.dns_requests ++ (new_request ∷ []) })
    | some bc ↦ done (send_dns_response found.0 new_request (some bc.binded_addr))
  ]

-- `onDNSRequest` at the time `now`
unfoldable pub on_dns_request : Server → ℕ → Bytes → DnsType → ℕ → Bytes → Bytes → Run Server
on_dns_request s now name type request_unique sockaddr all = elim type [
  | a_record ↦ serve_request s now name request_unique sockaddr all
  | any_record ↦ serve_request s now name request_unique sockaddr all
  | _ ↦ done s
]

-- One round of the loop of `dns_thread_function`, on a datagram of `sockaddr`. Two bytes of the number
-- of the request are never written: it is the environment's.
unfoldable pub dns_datagram : Server → ℕ → ℕ → Bytes → Bytes → Run Server
dns_datagram s now request_unique sockaddr buffer = elim (parse_request buffer) [
  | none ↦ done s
  | some r ↦ on_dns_request s now r.address r.dns_type request_unique sockaddr buffer
]

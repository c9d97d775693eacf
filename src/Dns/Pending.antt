-- ===== src/Dns/Pending.antt =====
-- A DNS request that waits for its chain (src/apps/RSDNSServer.cpp).
use labyrinthus.Base.{ℕ, Bytes}
use labyrinthus.Object.Value.{Object}

-- dns_requests_t
pub record DnsRequests : Type 0 where
  pub address_crc : ℕ
  pub sockaddr_for_response : Bytes
  pub dns_req_unique : ℕ
  pub last_request_time : ℕ
  pub all_request : Bytes
  pub asked : Object

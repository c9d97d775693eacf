-- ===== src/Server/State.antt =====
-- The globals of src/apps/RSServerCommunication.cpp that the router works on.
use labyrinthus.Base.{ℕ, Bytes, List, Option}
use labyrinthus.Object.Value.{Object}
use labyrinthus.Socket.Packet.{Socket}
use labyrinthus.Dns.Pending.{DnsRequests}

-- CLIENT_STATE_*
pub data ClientState : Type 0 where
  undefined unused used wait_response registred : ClientState

pub record ClientObject : Type 0 where
  pub local_unique_identifier : Bytes
  pub local_domain : Bytes
  pub chains : Object
  pub local_addr : Bytes
  pub traffic_key : Bytes
  pub client_state : ClientState
  pub last_activity_time : ℕ

pub record BindedChain : Type 0 where
  pub binded_addr : Bytes
  pub domain_address_crc : ℕ
  pub get_chains_response : Object

-- `tun` has what the code gave `write` for the tunnel device, `dns_sent` what it gave `sendto` for the
-- DNS socket, with the address.
pub record Server : Type 0 where
  pub rsock : Socket
  pub my_address : Option Object
  pub registred_clients : List ClientObject
  pub devices : List Object
  pub binded_chains : List BindedChain
  pub binded_ip : Bytes
  pub dns_requests : List DnsRequests
  pub dns_sent : List (Bytes × Bytes)
  pub tun : List Bytes

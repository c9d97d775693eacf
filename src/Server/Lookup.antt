-- ===== src/Server/Lookup.antt =====
-- The searches for bound chains and waiting requests (src/apps/RSServerCommunication.cpp).
use labyrinthus.Base.{
  ℕ, ◌+◌, ◌<◌, ◌≡◌, refl, Bytes, true, List, [], ◌∷◌, ◌++◌, some, none, done, >>=-eq-done, ◌==◌,
  arith, length, codes, Bool-cases, inl, inr, bytes_eq_refl, Option-cases,
}
use labyrinthus.Base.Words.{int_limit}
use labyrinthus.Object.Value.{Object, description}
use labyrinthus.Object.Create.{create}
use labyrinthus.Object.Encode.{encode}
use labyrinthus.Object.Access.{
  compare, compare_type, object_by_name, dyn_object_by_name, put_value, set_uint_object_by_name,
}
use labyrinthus.Defines.Table.{structs, create_rss_object_with_type, rs_communication_port, rs_host}
use labyrinthus.Defines.AddrType
use labyrinthus.Defines.Cmd
use labyrinthus.Defines.Objects.{address, packet, get_chains_request}
use labyrinthus.Checksum.Crc.{get_crc}
use labyrinthus.Socket.Packet.{Socket, send_to_route_server, send_to_sock_addr, af_inet}
use labyrinthus.Socket.Delivery.{wrap_packet_lem}
use labyrinthus.Dns.Pending.{DnsRequests}
use labyrinthus.Server.State.{Server, BindedChain}
use labyrinthus.Server.Edit.{append_dyn, update_object}
use labyrinthus.Server.Bindings.{find_binded, get_binded_chain_by_address}
use labyrinthus.Server.Requests.{domain_object}
use labyrinthus.Server.Receiver.{awaits, take_request}
use labyrinthus.Server.Journey.{address_assigned}

pub eq_self : (n : ℕ) → (n == n) ≡ true
eq_self n = ground arith

pub compare_self : (o : Object) → compare o o ≡ true
unfolding compare compare_type
compare_self o = rw (bytes_eq_refl (description o)) (bytes_eq_refl (encode o))

pub find_binded-append :
    (bcs more : List BindedChain) (crc : ℕ) (addr : Object)
    → find_binded bcs crc addr ≡ done none
    → find_binded (bcs ++ more) crc addr ≡ find_binded more crc addr
unfolding find_binded
find_binded-append [] more crc addr h = refl
find_binded-append (bc ∷ bcs) more crc addr h = elim (Bool-cases (bc.domain_address_crc == crc)) [
  | inr other ↦ rw other (find_binded-append bcs more crc addr (rw other at h))
  | inl same ↦
      let (a, e, q) =
        >>=-eq-done (object_by_name bc.get_chains_response (codes "address")) _ (rw same at h) in
      elim (Bool-cases (compare a addr)) [
        | inl hit ↦ absurd (cc (rw hit at q))
        | inr miss ↦ rw (same, e, miss) (find_binded-append bcs more crc addr (rw miss at q))
      ]
]

pub take_request-append :
    (rts : List DnsRequests) (rt : DnsRequests) (crc : ℕ) (addr : Object)
    → take_request rts crc addr ≡ none
    → awaits rt crc addr ≡ true
    → take_request (rts ++ (rt ∷ [])) crc addr ≡ some (rt, rts)
unfolding take_request
take_request-append [] rt crc addr h hit = rw hit
take_request-append (r ∷ rts) rt crc addr h hit = elim (Bool-cases (awaits r crc addr)) [
  | inl first ↦ absurd (cc (rw first at h))
  | inr other ↦ elim (Option-cases (take_request rts crc addr)) [
    | inl e ↦ rw (other, take_request-append rts rt crc addr e hit)
    | inr (found, e) ↦ absurd (cc (rw (other, e) at h))
  ]
]

-- The socket when it has asked the route server for a chain
abbrev pub asked_for : Socket → Bytes → Socket
asked_for k name = record k {
  sent =
      k.sent
      ++ ((
        record { family = af_inet; port = rs_communication_port; addr = rs_host },
        encode (
            packet Cmd.getchains_request
              (encode (get_chains_request (address AddrType.domain name)))),
      )
          ∷ []);
}

pub asks :
    (s : Server) (name : Bytes)
    → s.rsock.is_open ≡ true
    → length name + 5 < int_limit
    → find_binded s.binded_chains (get_crc name) (address AddrType.domain name) ≡ done none
    → get_binded_chain_by_address s (address AddrType.domain name)
      ≡ done (record s { rsock = asked_for s.rsock name }, none)
unfolding get_binded_chain_by_address dyn_object_by_name create_rss_object_with_type structs create
    update_object object_by_name put_value send_to_route_server send_to_sock_addr
asks s name up small none_bound = rw (
  none_bound,
  address_assigned AddrType.domain name small,
  up,
  wrap_packet_lem Cmd.getchains_request (get_chains_request (address AddrType.domain name)),
)

pub domain_object_lem : (name : Bytes) → domain_object name ≡ done (address AddrType.domain name)
unfolding domain_object create_rss_object_with_type structs create set_uint_object_by_name
    append_dyn dyn_object_by_name put_value
domain_object_lem name = refl

-- ===== src/Dns/Message.antt =====
-- The parser of a request in dns_thread_function, and sendDNSResponse (src/apps/RSDNSServer.cpp).
use labyrinthus.Base.{
  ℕ, zero, suc, ◌&&◌, Bytes, [], ◌∷◌, ◌++◌, Option, some, none, ◌==◌, ltb, length, take, drop,
  get_or, set, if◌then◌else◌,
}
use labyrinthus.Base.Words.{le_bytes}

-- dns_type_t
pub data DnsType : Type 0 where
  undefined a_record aaaa_record any_record : DnsType

-- `if(address->length()){address->append(".");} address->append(d,nl);`
abbrev pub append_label : Bytes → Bytes → Bytes
append_label [] label = label
append_label (c ∷ address) label = (c ∷ address) ++ (b'.' ∷ label)

-- The loop over the labels, from the name so far; it gives the name and the bytes behind `d`. `max`
-- is at each moment the number of these bytes. `none` means that the fuel ran out.
unfoldable pub name_loop : ℕ → Bytes → Bytes → Option (Bytes × Bytes)
name_loop fuel [] address = some (address, [])
name_loop zero (nl ∷ d) address = none
name_loop (suc fuel) (nl ∷ d) address =
    let more = name_loop fuel (drop nl d) (append_label address (take nl d)) in
    if nl == 0 then some (address, d) else if ltb (length d) nl then some (address, d) else more

-- The chain of tests on the two bytes of the type
unfoldable pub type_of : Bytes → DnsType
type_of d =
    if get_or d 0 0 == 0x00 && get_or d 1 0 == 0x01
    then a_record
    else if get_or d 0 0 == 0x00 && get_or d 1 0 == 0xff
    then any_record
    else if get_or d 0 0 == 0x00 && get_or d 1 0 == 0x1c
    then aaaa_record
    else undefined

pub record Request : Type 0 where
  pub address : Bytes
  pub dns_type : DnsType

-- `address->length()&&(max>=sizeof(dns_request_additional_t))`
abbrev pub request_of : Option (Bytes × Bytes) → Option Request
request_of (some (c ∷ address, d)) =
    if ltb (length d) 4 then none else some (record { address = c ∷ address; dns_type = type_of d })
request_of _ = none

-- What a received datagram asks for; `sizeof(dns_request_t)` is 12.
unfoldable pub parse_request : Bytes → Option Request
parse_request buffer =
    if ltb 12 (length buffer)
    then request_of (name_loop (length buffer) (drop 12 buffer) [])
    else none

-- The bytes that `sendDNSResponse` sends for a request of at least eight bytes (the program has
-- only requests of more than twelve; on a shorter one the code writes behind the string), with an
-- address or with NULL. On little-endian machines `(char*)&ttl` begins with the low byte.
unfoldable pub dns_response : Bytes → Option Bytes → Bytes
dns_response all_request none = set (set (set (set all_request 2 0x81) 3 0x80) 6 0) 7 0
dns_response all_request (some s_addr) =
    set (set (set (set all_request 2 0x81) 3 0x80) 6 0) 7 1
    ++ ((0xc0 ∷ 0x0c ∷ 0x00 ∷ 0x01 ∷ 0x00 ∷ 0x01 ∷ [])
        ++ (le_bytes 4 3600 ++ ((0x00 ∷ 0x04 ∷ []) ++ s_addr)))

-- ===== src/Tests/Messages.antt =====
-- The DNS server and the packet socket at concrete inputs.
use labyrinthus.Base.{
  ◌≤◌, ◌≡◌, refl, Bytes, [], ◌∷◌, ◌++◌, some, none, true, done, arith, length, take, codes,
}
use labyrinthus.Object.Encode.{encode}
use labyrinthus.Object.Shape.{normalize, depth}
use labyrinthus.Defines.Objects.{address, address-IsSound}
use labyrinthus.Dns.Message.{name_loop, parse_request, type_of, dns_response, a_record}
use labyrinthus.Dns.Query.{encode_labels, parse_request-encode, name_loop_total}
use labyrinthus.Dns.Answer.{answer_data, answer_ttl, dns_response_message, dns_response_ttl}
use labyrinthus.Socket.Packet.{
  SockAddr, Socket, datagram, failed, send_to_sock_addr, receive_packet, get_last_cmd,
  get_last_packed_data_as_type, af_inet,
}
use labyrinthus.Socket.Delivery.{delivery}

abbrev header : Bytes
header = 0x12 ∷ 0x34 ∷ 1 ∷ 0 ∷ 0 ∷ 1 ∷ 0 ∷ 0 ∷ 0 ∷ 0 ∷ 0 ∷ 0 ∷ []

name_loop_total_example :
    (r : Bytes × Bytes) × (name_loop 6 (2 ∷ b'r' ∷ b'u' ∷ 0 ∷ 9 ∷ []) [] ≡ some r)
    × (length r.1 ≤ 5)
name_loop_total_example = name_loop_total 6 (2 ∷ b'r' ∷ b'u' ∷ 0 ∷ 9 ∷ []) [] (omega arith)

parse_request-encode_example :
    parse_request
      (header ++ (encode_labels (codes "www" ∷ codes "ru" ∷ []) ++ (0 ∷ 1 ∷ 0 ∷ 1 ∷ [])))
    ≡ some (record { address = codes "www.ru"; dns_type = a_record })
unfolding type_of
parse_request-encode_example =
    parse_request-encode header (codes "www") (codes "ru" ∷ []) 0 1 0 1 [] refl
      (omega arith, (omega arith, tt))

abbrev request : Bytes
request = 0x12 ∷ 0x34 ∷ 1 ∷ 0 ∷ 0 ∷ 1 ∷ 0 ∷ 0 ∷ 0 ∷ 0 ∷ 0 ∷ 0 ∷ 0 ∷ 0 ∷ 1 ∷ 0 ∷ 1 ∷ []

dns_response_message_example :
    (dns_response request none
      ≡ 0x12 ∷ 0x34 ∷ 0x81 ∷ 0x80 ∷ 0 ∷ 1 ∷ 0 ∷ 0 ∷ 0 ∷ 0 ∷ 0 ∷ 0 ∷ 0 ∷ 0 ∷ 1 ∷ 0 ∷ 1 ∷ [])
    × (take 8 (dns_response request (some (192 ∷ 0 ∷ 0 ∷ 1 ∷ [])))
        ≡ 0x12 ∷ 0x34 ∷ 0x81 ∷ 0x80 ∷ 0 ∷ 1 ∷ 0 ∷ 1 ∷ [])
    × (answer_data (dns_response request (some (192 ∷ 0 ∷ 0 ∷ 1 ∷ []))) 17 ≡ 192 ∷ 0 ∷ 0 ∷ 1 ∷ [])
dns_response_message_example =
    dns_response_message 0x12 0x34 1 0 0 1 0 0 (0 ∷ 0 ∷ 0 ∷ 0 ∷ 0 ∷ 0 ∷ 1 ∷ 0 ∷ 1 ∷ [])
      (192 ∷ 0 ∷ 0 ∷ 1 ∷ [])

dns_response_ttl_example :
    answer_ttl (dns_response request (some (192 ∷ 0 ∷ 0 ∷ 1 ∷ []))) 17 ≡ 269352960
dns_response_ttl_example = dns_response_ttl request (192 ∷ 0 ∷ 0 ∷ 1 ∷ []) (omega arith)

abbrev pub peer : SockAddr
peer = record { family = af_inet; port = 5; addr = 10 ∷ 0 ∷ 0 ∷ 1 ∷ [] }

abbrev pub socket : Socket
socket = record {
  is_open = true;
  sin_tmp = peer;
  slen_tmp = 0;
  buffer = 9 ∷ 9 ∷ 9 ∷ 9 ∷ 9 ∷ 9 ∷ 9 ∷ 9 ∷ 9 ∷ 9 ∷ 9 ∷ 9 ∷ 9 ∷ 9 ∷ [];
  rso_data = none;
  sent = [];
}

delivery_example :
    (bytes : Bytes) × (s' r' : Socket) × (send_to_sock_addr socket peer 3 (address 257 (8 ∷ []))
      ≡ done (s', true))
    × (s'.sent ≡ (peer, bytes) ∷ [])
    × (receive_packet socket (datagram peer 16 bytes ∷ failed ∷ []) ≡ done (r', true, failed ∷ []))
    × (get_last_cmd r' ≡ done 3)
    × (get_last_packed_data_as_type r' (codes "address_t") ≡ done (some (address 1 (8 ∷ []))))
unfolding depth encode normalize
delivery_example =
    delivery socket socket peer peer 16 3 (address 257 (8 ∷ [])) (failed ∷ []) refl refl
      (omega arith) (address-IsSound 257 (8 ∷ []) (omega arith)) (omega arith) (omega arith)
      (omega arith)

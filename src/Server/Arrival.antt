-- ===== src/Server/Arrival.antt =====
-- The last device of a chain writes the data into its tunnel for the client (src/apps/RSRouter.cpp).
use labyrinthus.Base.{
  ℕ, ◌+◌, ◌%◌, ◌/◌, ◌<◌, ◌≡◌, refl, ap, ◌∙◌, Bytes, Bool, [], ◌∷◌, ◌++◌, Option, some, none, Run,
  false, done, arith, length, codes, All, length-append,
}
use labyrinthus.Base.Words.{int_limit}
use labyrinthus.Object.Encode.{encode}
use labyrinthus.Object.Parse.{parse, parsed}
use labyrinthus.Object.Access.{uint_object_by_name, dyn_object_by_name, object_by_name}
use labyrinthus.Object.Shape.{normalize, blank, depth}
use labyrinthus.Object.Create.{create}
use labyrinthus.Object.Fresh.{create-blank}
use labyrinthus.Object.RoundTrip.{parse-encode_whole}
use labyrinthus.Defines.Table.{structs, nesting, create_rss_object_with_type}
use labyrinthus.Defines.AddrType
use labyrinthus.Defines.Objects.{address, client_data, data_packet, client_data-IsSound}
use labyrinthus.Checksum.Crc.{get_crc}
use labyrinthus.Checksum.InternetSum.{ip_sum}
use labyrinthus.Checksum.Verify.{zero_word_verifies}
use labyrinthus.Server.State.{Server, ClientObject, BindedChain}
use labyrinthus.Server.Bindings.{find_binded, get_binded_chain_by_address}
use labyrinthus.Server.Routing.{
  apply_and_route_rss_packet, deliver, deliver_to_hash, find_client, iface_data, ip_header,
  decrypt_data,
}
use labyrinthus.Server.Peeling.{layer, copy-layer}

-- The header that `iface_data` builds has a checksum that verifies.
iface_data_lem :
    (proto : ℕ) (src dst payload : Bytes)
    → All (λ b. b < 256) (src ++ dst)
    → (c : ℕ) × (iface_data proto src dst payload
        ≡ done
            ((0 ∷ 0 ∷ 8 ∷ 0 ∷ []) ++ (ip_header (length payload + 20) proto src dst c ++ payload)))
      × (ip_sum (ip_header (length payload + 20) proto src dst c) ≡ some 0)
unfolding iface_data
iface_data_lem proto src dst payload small =
    let len = length payload + 20 in
    let head : Bytes =
      0x45 ∷ 0 ∷ (len / 256 % 256) ∷ (len % 256) ∷ 0 ∷ 0 ∷ 0x40 ∷ 0 ∷ 64 ∷ (proto % 256) ∷ [] in
    let (c, e, lt, zero_sum) =
      zero_word_verifies head (src ++ dst) 5 refl
        (
          omega arith,
          (
            omega arith,
            (
              omega arith,
              (
                omega arith,
                (
                  omega arith,
                  (omega arith, (omega arith, (omega arith, (omega arith, (omega arith, tt))))),
                ),
              ),
            ),
          ),
        )
        small in
    (c, rw (iface_data, e), zero_sum)

client_data_bytes :
    (t : ℕ) (a payload : Bytes) (proto : ℕ)
    → length (encode (client_data (address t a) payload proto)) ≡ length a + length payload + 10
unfolding encode
client_data_bytes t a payload proto = simp (length-append) (omega arith)

module _ (t : ℕ) (a payload : Bytes) (proto : ℕ)
    (small : length a + length payload + 10 < int_limit) where
  client_data_created :
      create nesting structs (codes "data_packet_encrypted_data")
      ≡ done (blank (client_data (address t a) payload proto))
  unfolding depth
  client_data_created =
      create-blank nesting structs (client_data (address t a) payload proto)
        (client_data-IsSound t a payload proto (omega arith) (omega arith)) (omega arith)

  client_data_parsed :
      parse nesting structs
        (blank (client_data (address t a) payload proto))
        (encode (client_data (address t a) payload proto))
        (length (encode (client_data (address t a) payload proto)))
      ≡ done (
          parsed
            (client_data (address (t % 256) a) payload (proto % 256))
            (length (encode (client_data (address t a) payload proto))))
  unfolding depth normalize
  client_data_parsed =
      parse-encode_whole nesting structs (client_data (address t a) payload proto)
        (client_data-IsSound t a payload proto (omega arith) (omega arith)) (omega arith)
        (omega (arith, client_data_bytes t a payload proto))

at_hash :
    (written : Bytes → Bool) (s : Server) (t : ℕ) (id encrypted : Bytes) (co : ClientObject)
    → find_client s.registred_clients id ≡ some co
    → deliver_to_hash written s (address t id) encrypted ≡ deliver written s co encrypted
unfolding deliver_to_hash dyn_object_by_name
at_hash written s t id encrypted co client =
    let found : Option ClientObject → Run (Server × Bool) = elim [
      | none ↦ done (s, false)
      | some co ↦ deliver written s co encrypted
    ] in
    ap found client

delivered :
    (written : Bytes → Bool) (s : Server) (co : ClientObject) (t : ℕ) (ra payload : Bytes)
    (proto : ℕ) (bc : BindedChain) (bytes : Bytes)
    → length ra + length payload + 10 < int_limit
    → find_binded s.binded_chains (get_crc ra) (address (t % 256) ra) ≡ done (some bc)
    → iface_data (proto % 256) bc.binded_addr co.local_addr payload ≡ done bytes
    → deliver written s co (encode (client_data (address t ra) payload proto))
      ≡ done (record s { tun = s.tun ++ (bytes ∷ []) }, written bytes)
unfolding deliver get_binded_chain_by_address uint_object_by_name dyn_object_by_name object_by_name
    create_rss_object_with_type
delivered written s co t ra payload proto bc bytes small bound e = rw (
  client_data_created t ra payload proto small,
  client_data_parsed t ra payload proto small,
  get_binded_chain_by_address,
  bound,
  e,
)

-- A packet whose chain begins with the hash of a client, and whose data hold a return address to
-- which a chain is bound, the two encodings smaller than 2^31 bytes: the bytes of its data field
-- are written into the tunnel device behind a fresh IPv4 header from the chain's address to the
-- client's (both of bytes), with the protocol, the length of header and data, and a checksum that
-- verifies.
pub client_receives :
    (written : Bytes → Bool) (s : Server) (id : Bytes) (m : ℕ) (inner : Bytes) (t : ℕ)
    (ra payload : Bytes) (proto : ℕ) (co : ClientObject) (bc : BindedChain)
    → length id + length inner + 10 < int_limit
    → length ra + length payload + 10 < int_limit
    → find_client s.registred_clients id ≡ some co
    → find_binded s.binded_chains (get_crc ra) (address (t % 256) ra) ≡ done (some bc)
    → All (λ b. b < 256) (bc.binded_addr ++ co.local_addr)
    → (c : ℕ) × (let header =
          ip_header (length payload + 20) (proto % 256) bc.binded_addr co.local_addr c in
        let bytes = (0 ∷ 0 ∷ 8 ∷ 0 ∷ []) ++ (header ++ payload) in
        (apply_and_route_rss_packet written s (
            data_packet
              (layer AddrType.localhash id m inner)
              (encode (client_data (address t ra) payload proto)))
          ≡ done (record s { tun = s.tun ++ (bytes ∷ []) }, written bytes))
        × (ip_sum header ≡ some 0))
unfolding apply_and_route_rss_packet uint_object_by_name dyn_object_by_name object_by_name
    decrypt_data
client_receives written s id m inner t ra payload proto co bc small small' client bound bytes =
    let (c, e, zero_sum) =
      iface_data_lem (proto % 256) bc.binded_addr co.local_addr payload bytes in
    let encrypted = encode (client_data (address t ra) payload proto) in
    (
      c,
      (
        rw (copy-layer AddrType.localhash id m inner small) (
            at_hash written s AddrType.localhash id encrypted co client
            ∙ delivered written s co t ra payload proto bc _ small' bound e),
        zero_sum,
      ),
    )

-- ===== src/Server/Journey.antt =====
-- A chain that is built from a route (src/apps/RSServerCommunication.cpp) takes a packet along it
-- (src/apps/RSRouter.cpp).
use labyrinthus.Base.{
  ℕ, ◌+◌, ◌*◌, ◌%◌, ◌<◌, ◌≡◌, refl, Bytes, Bool, true, List, [], ◌∷◌, some, none, done, arith,
  length, All, length-append,
}
use labyrinthus.Base.Words.{int_limit}
use labyrinthus.Object.Value.{Object}
use labyrinthus.Object.Encode.{encode}
use labyrinthus.Object.Access.{
  set_uint_object_by_name, dyn_object_by_name, object_by_name, put_value, assign,
}
use labyrinthus.Object.Shape.{normalize, depth}
use labyrinthus.Object.Copies.{assign-normalize}
use labyrinthus.Object.Create.{create}
use labyrinthus.Defines.Table.{structs, nesting, create_rss_object_with_type}
use labyrinthus.Defines.AddrType
use labyrinthus.Defines.Encryption
use labyrinthus.Defines.Objects.{address, data_packet, address-IsSound}
use labyrinthus.Server.State.{Server}
use labyrinthus.Server.Edit.{update_object}
use labyrinthus.Server.Onion.{encrypt_data, encrypt_chain_element, chain_loop, method_of}
use labyrinthus.Server.Routing.{apply_and_route_rss_packet}
use labyrinthus.Server.Peeling.{layer, layer_bytes, sent_on, forward_peels}

pub address_assigned :
    (t : ℕ) (a : Bytes)
    → length a + 5 < int_limit
    → assign nesting structs (address 0 []) (address t a) ≡ done (address (t % 256) a, true)
unfolding normalize depth encode
address_assigned t a h =
    assign-normalize nesting structs (address 0 []) (address t a)
      (address-IsSound 0 [] (omega arith)) (address-IsSound t a (omega arith)) refl (omega arith)
      (omega arith) (omega (arith, length-append a []))

first_layer :
    (t : ℕ) (a : Bytes) (m : ℕ)
    → length a + 5 < int_limit
    → encrypt_chain_element (address t a) none m ≡ done (layer (t % 256) a m [])
unfolding encrypt_chain_element update_object encrypt_data create_rss_object_with_type structs
    create object_by_name put_value set_uint_object_by_name
first_layer t a m h = rw (address_assigned t a h)

next_layer :
    (t : ℕ) (a : Bytes) (m : ℕ) (o : Object)
    → length a + 5 < int_limit
    → encrypt_chain_element (address t a) (some o) m ≡ done (layer (t % 256) a m (encode o))
unfolding encrypt_chain_element update_object encrypt_data create_rss_object_with_type structs
    create object_by_name dyn_object_by_name put_value set_uint_object_by_name
next_layer t a m o h = rw (address_assigned t a h)

-- The addresses of devices, and the chain that their route wraps around a chain
abbrev pub ip4_addresses : List Bytes → List Object
ip4_addresses [] = []
ip4_addresses (ip ∷ ips) = address AddrType.ip4 ip ∷ ip4_addresses ips

abbrev onion : List Bytes → Object → Object
onion [] o = o
onion (ip ∷ ips) o =
    onion ips (layer AddrType.ip4 ip (method_of (ip4_addresses ips) (some o)) (encode o))

chain_loop-onion :
    (ips : List Bytes) (o : Object)
    → All (λ ip. length ip ≡ 4) ips
    → chain_loop (ip4_addresses ips) (some o) ≡ done (some (onion ips o))
unfolding chain_loop
chain_loop-onion [] o h = refl
chain_loop-onion (ip ∷ ips) o (four, h) =
    rw (next_layer AddrType.ip4 ip (method_of (ip4_addresses ips) (some o)) o (omega arith)) (
      chain_loop-onion ips
        (layer AddrType.ip4 ip (method_of (ip4_addresses ips) (some o)) (encode o)) h)

-- A packet with this chain and payload, whichever open device handles it, goes to the first of the
-- addresses, and from there on likewise, until it has the chain that is left.
pub data Travels (written : Bytes → Bool) (payload : Bytes)
    : Object → List Bytes → Object → Type 0 where
  arrived : {c : Object} → Travels written payload c [] c
  hop :
      {c c' d : Object} {ip : Bytes} {ips : List Bytes}
      → ((s : Server)
          → s.rsock.is_open ≡ true
          → apply_and_route_rss_packet written s (data_packet c payload)
            ≡ done (record s { rsock = sent_on s.rsock ip (data_packet c' payload) }, true))
      → Travels written payload c' ips d
      → Travels written payload c (ip ∷ ips) d

abbrev pub turned : List Bytes → List Bytes → List Bytes
turned [] rest = rest
turned (ip ∷ ips) rest = turned ips (ip ∷ rest)

method_of-none : (route : List Object) → method_of route none ≡ Encryption.notencrypt
method_of-none [] = refl
method_of-none (a ∷ route) = refl

method_of_byte : (route : List Object) (o : Object) → method_of route (some o) < 256
method_of_byte [] o = omega arith
method_of_byte (a ∷ route) o = omega arith

pub mod_small : (n : ℕ) → n < 256 → n % 256 ≡ n
mod_small n h = omega arith

module _ (written : Bytes → Bool) (payload : Bytes) where
  forward_whole :
      (s : Server) (ip : Bytes) (m t : ℕ) (a : Bytes) (m' : ℕ) (p : Bytes)
      → t < 256
      → m' < 256
      → s.rsock.is_open ≡ true
      → length ip ≡ 4
      → length a + length p + 32 < int_limit
      → apply_and_route_rss_packet written s
          (data_packet (layer AddrType.ip4 ip m (encode (layer t a m' p))) payload)
        ≡ done
            (record s { rsock = sent_on s.rsock ip (data_packet (layer t a m' p) payload) }, true)
  forward_whole s ip m t a m' p ht hm up four small =
      let h = forward_peels written s ip m t a m' p payload up four small in
      rw (mod_small t ht, mod_small m' hm) at h

  onion-Travels :
      (ips : List Bytes) (t : ℕ) (a : Bytes) (m : ℕ) (p : Bytes) (rest : List Bytes) (d : Object)
      → All (λ ip. length ip ≡ 4) ips
      → t < 256
      → m < 256
      → length a + length p + 32 + 14 * length ips < int_limit
      → Travels written payload (layer t a m p) rest d
      → Travels written payload (onion ips (layer t a m p)) (turned ips rest) d
  onion-Travels [] t a m p rest d h ht hm small way = way
  onion-Travels (ip ∷ ips) t a m p rest d (four, h) ht hm small way =
      let method = method_of (ip4_addresses ips) (some (layer t a m p)) in
      onion-Travels ips AddrType.ip4 ip method (encode (layer t a m p)) (ip ∷ rest) d h
        (omega arith) (method_of_byte (ip4_addresses ips) (layer t a m p))
        (omega (arith, layer_bytes t a m p))
        (hop (λ s up. forward_whole s ip method t a m p ht hm up four (omega arith)) way)

  -- The loop over a route of a client's hash and IPv4 addresses of four bytes, the whole smaller
  -- than 2^31 bytes, gives a chain, and that chain takes a packet to the addresses, the last one
  -- first, and leaves the client's layer.
  pub chain_loop-Travels :
      (id : Bytes) (ips : List Bytes)
      → All (λ ip. length ip ≡ 4) ips
      → length id + 32 + 14 * length ips < int_limit
      → (c : Object) × (chain_loop (address AddrType.localhash id ∷ ip4_addresses ips) none
          ≡ done (some c))
        × Travels written payload c
            (turned ips [])
            (layer AddrType.localhash id Encryption.notencrypt [])
  unfolding chain_loop
  chain_loop-Travels id ips h small =
      let first = layer AddrType.localhash id Encryption.notencrypt [] in
      (
        onion ips first,
        rw
            (
              method_of-none (ip4_addresses ips),
              first_layer AddrType.localhash id Encryption.notencrypt (omega arith),
            )
            (chain_loop-onion ips first h),
        onion-Travels ips AddrType.localhash id Encryption.notencrypt [] [] first h (omega arith)
            (omega arith) (omega arith) arrived,
      )

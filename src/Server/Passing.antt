-- ===== src/Server/Passing.antt =====
-- The handling of the other devices' packets never ends badly (src/apps/RSRouter.cpp,
-- RSServerCommunication.cpp), but on an address that is too short.
use labyrinthus.Base.{
  ℕ, ◌+◌, ◌%◌, ◌≤◌, ◌<◌, ◌≡◌, refl, Bytes, Bool, false, ◌==◌, ==_iff, Option, some, none, done,
  length, arith, All, length-append,
}
use labyrinthus.Base.Words.{int_limit}
use labyrinthus.Object.Value.{Object}
use labyrinthus.Object.Encode.{encode}
use labyrinthus.Object.Parse.{parse, parsed, rejected}
use labyrinthus.Object.Description.{find_description, split_description}
use labyrinthus.Object.Value.{kind_of}
use labyrinthus.Object.Access.{object_by_name, dyn_object_by_name, uint_object_by_name, put_value}
use labyrinthus.Object.Typed.{IsTyped}
use labyrinthus.Object.Safety.{Sure-bind, Sure-if, Within}
use labyrinthus.Object.Safety.Total.{Ends}
use labyrinthus.Defines.Table.{structs, nesting}
use labyrinthus.Defines.AddrType
use labyrinthus.Defines.Cmd
use labyrinthus.Defines.Objects.{encrypted_packet, address, data_packet}
use labyrinthus.Defines.Safe.{parse_defined}
use labyrinthus.Socket.Packet.{Socket, send_to_ip_address, send_to_sock_addr}
use labyrinthus.Socket.Delivery.{wrap_packet_lem}
use labyrinthus.Server.State.{Server, ClientObject}
use labyrinthus.Server.Onion.{in_addr_of}
use labyrinthus.Server.Routing.{
  find_client, deliver, deliver_to_hash, forward, apply_and_route_rss_packet, decrypt_data,
}
use labyrinthus.Server.Peeling.{layer, copy-layer}
use labyrinthus.Server.Directory.{IsIndexed}
use labyrinthus.Server.Numbered.{ChainBytes, ClientBytes, find_client-All}
use labyrinthus.Server.Control.{distinct}
use labyrinthus.Server.Delivering.{deliver-Ends, Nothing}

client_found-Ends :
    (written : Bytes → Bool) (s : Server) (r : Option ClientObject) (bytes : Bytes)
    → ((co : ClientObject) → r ≡ some co → Ends (deliver written s co bytes))
    → Ends {A = Server × Bool}
        (elim r [ none ↦ done (s, false) | some co ↦ deliver written s co bytes ])
client_found-Ends written s none bytes h = tt
client_found-Ends written s (some co) bytes h = h co refl

deliver_to_hash-Ends :
    (written : Bytes → Bool) (s : Server) (t : ℕ) (hash bytes : Bytes)
    → All IsIndexed s.binded_chains
    → All ChainBytes s.binded_chains
    → All ClientBytes s.registred_clients
    → length bytes < int_limit
    → Ends (deliver_to_hash written s (address t hash) bytes)
unfolding deliver_to_hash dyn_object_by_name
deliver_to_hash-Ends written s t hash bytes indexed numbered clients small =
    client_found-Ends written s (find_client s.registred_clients hash) bytes λ co found.
      deliver-Ends written s co bytes indexed numbered
        (find_client-All ClientBytes s.registred_clients hash co found clients) small

layer-IsTyped : (t : ℕ) (a : Bytes) (m : ℕ) (p : Bytes) → IsTyped structs (layer t a m p)
unfolding IsTyped structs find_description split_description kind_of
layer-IsTyped t a m p =
    let part : IsTyped structs (address t a) = (refl, refl, (refl, (refl, tt))) in
    let rest : IsTyped structs (encrypted_packet m p) = (refl, refl, (refl, (refl, tt))) in
    (refl, refl, ((refl, refl, part), ((refl, refl, rest), tt)))

in_addr_of-Ends : (a : Bytes) → 3 ≤ length a → Ends (in_addr_of a)
unfolding in_addr_of
in_addr_of-Ends a h = ground arith

send_to_ip_address-Ends :
    (k : Socket) (ip : Bytes) (cmd : ℕ) (o : Object) → Ends (send_to_ip_address k ip cmd o)
unfolding send_to_ip_address send_to_sock_addr
send_to_ip_address-Ends k ip cmd o =
    rw (wrap_packet_lem cmd o) (Sure-if Nothing k.is_open _ _ (λ _. tt) (λ _. tt))

forward-Ends :
    (s : Server) (t t' : ℕ) (a : Bytes) (m : ℕ) (p payload : Bytes)
    → 3 ≤ length a
    → length p < int_limit
    → Ends (forward s (data_packet (layer t a m p) payload) (layer t a m p) (address t' a) p)
unfolding forward dyn_object_by_name put_value
forward-Ends s t t' a m p payload long small =
    Sure-bind (Within (length p)) Nothing (parse nesting structs (layer t a m p) p (length p)) _
      (parse_defined (layer t a m p) p (length p) (layer-IsTyped t a m p) (λ e. distinct _ _ refl e)
        (omega arith) small)
      (elim [
        | rejected o ↦ λ _. tt
        | parsed peeled k ↦ λ _.
            Sure-bind Nothing Nothing (in_addr_of a) _ (in_addr_of-Ends a long) λ ip _.
              Sure-bind Nothing Nothing (send_to_ip_address s.rsock ip Cmd.send_packet _) _
                (send_to_ip_address-Ends s.rsock ip Cmd.send_packet _) λ _ _. tt
      ])

data_bytes :
    (t : ℕ) (a : Bytes) (m : ℕ) (p payload : Bytes)
    → length (encode (data_packet (layer t a m p) payload))
      ≡ length a + length p + length payload + 14
unfolding encode
data_bytes t a m p payload = simp (length-append) (omega arith)

pub apply_and_route-Ends :
    (written : Bytes → Bool) (s : Server) (t : ℕ) (a : Bytes) (m : ℕ) (p payload : Bytes)
    → All IsIndexed s.binded_chains
    → All ChainBytes s.binded_chains
    → All ClientBytes s.registred_clients
    → length (encode (data_packet (layer t a m p) payload)) < int_limit
    → (t % 256 ≡ AddrType.ip4 → 3 ≤ length a)
    → Ends (apply_and_route_rss_packet written s (data_packet (layer t a m p) payload))
unfolding apply_and_route_rss_packet uint_object_by_name dyn_object_by_name object_by_name
    decrypt_data
apply_and_route-Ends written s t a m p payload indexed numbered clients small long =
    let whole = data_bytes t a m p payload in
    rw (copy-layer t a m p (omega (arith, whole, small))) (
      Sure-if Nothing (t % 256 == AddrType.ip4) _ _
        (λ ip4.
          forward-Ends s t (t % 256) a m p payload (long ((==_iff (t % 256) AddrType.ip4).0 ip4))
            (omega (arith, whole, small)))
        λ _.
          Sure-if Nothing (t % 256 == AddrType.localhash) _ _
            (λ _.
              deliver_to_hash-Ends written s (t % 256) a payload indexed numbered clients
                (omega (arith, whole, small)))
            λ _. tt)

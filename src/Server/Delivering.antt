-- ===== src/Server/Delivering.antt =====
-- The delivery of a packet to a client of the device never ends badly (src/apps/RSRouter.cpp).
use mathlib.Core.Path.{subst}
use labyrinthus.Base.{
  ◌>>=◌, ◌>>=◌, ℕ, ◌+◌, ◌<◌, ◌≡◌, refl, sym, ap, ◌∙◌, Bytes, Bool, false, [], ◌∷◌, ◌++◌, Option,
  some, none, Run, done, codes, length, arith, inl, inr, Option-cases, All, All-append,
  length-append,
}
use labyrinthus.Base.Words.{int_limit}
use labyrinthus.Object.Value.{Object}
use labyrinthus.Object.Create.{create}
use labyrinthus.Object.Encode.{encode}
use labyrinthus.Object.Parse.{parse, parsed, rejected}
use labyrinthus.Object.Reverse.{IsByte}
use labyrinthus.Object.Description.{find_description}
use labyrinthus.Object.Access.{object_by_name, dyn_object_by_name, uint_object_by_name, put_value}
use labyrinthus.Object.Typed.{Named}
use labyrinthus.Object.Safety.{Sure-self, Sure, Sure-bind, Within}
use labyrinthus.Object.Safety.Total.{Ends}
use labyrinthus.Defines.Table.{structs, nesting, create_rss_object_with_type}
use labyrinthus.Defines.Cmd
use labyrinthus.Defines.Objects.{address, client_data}
use labyrinthus.Defines.DataPackets.{client_data_form}
use labyrinthus.Defines.Safe.{create_defined, parse_defined}
use labyrinthus.Checksum.Crc.{get_crc}
use labyrinthus.Checksum.Verify.{ip_sum-Stands}
use labyrinthus.Socket.Packet.{send_to_route_server}
use labyrinthus.Socket.Received.{new_parsed}
use labyrinthus.Server.State.{Server, BindedChain, ClientObject}
use labyrinthus.Server.Edit.{update_object}
use labyrinthus.Server.Bindings.{get_binded_chain_by_address}
use labyrinthus.Server.Routing.{ip_header, iface_data, deliver}
use labyrinthus.Server.Journey.{address_assigned}
use labyrinthus.Server.Directory.{IsIndexed, find_binded-resolve}
use labyrinthus.Server.Numbered.{ChainBytes, ClientBytes, find_binded-All}
use labyrinthus.Server.Handlers.{send_to_route_server-Ends}
use labyrinthus.Server.Control.{distinct}

client_bytes :
    (t : ℕ) (a d : Bytes) (proto : ℕ)
    → length (encode (client_data (address t a) d proto)) ≡ length a + length d + 10
unfolding encode
client_bytes t a d proto = simp (length-append) (omega arith)

abbrev pub Nothing : {A : Type 0} → A → Type 0
Nothing a = Unit {0}

iface_data-Ends :
    (proto : ℕ) (src dst payload : Bytes)
    → All IsByte src
    → All IsByte dst
    → Ends (iface_data proto src dst payload)
unfolding iface_data
iface_data-Ends proto src dst payload hs hd =
    let ends = All-append IsByte src dst hs hd in
    let (r, e, _, _) = ip_sum-Stands (ip_header (length payload + 20) proto src dst 0) (
      omega arith,
      (
        omega arith,
        (
          omega arith,
          (
            omega arith,
            (
              omega arith,
              (
                omega arith,
                (
                  omega arith,
                  (omega arith, (omega arith, (omega arith, (omega arith, (omega arith, ends))))),
                ),
              ),
            ),
          ),
        ),
      ),
    ) in
    rw (iface_data, e) tt

-- The chain that is found has an address of bytes.
abbrev HasBytes : Server × Option BindedChain → Type 0
HasBytes (s, none) = Unit {0}
HasBytes (s, some bc) = ChainBytes bc

get_binded_chain-Sure :
    (s : Server) (t : ℕ) (a : Bytes)
    → All IsIndexed s.binded_chains
    → All ChainBytes s.binded_chains
    → length a + 5 < int_limit
    → Sure HasBytes (get_binded_chain_by_address s (address t a))
unfolding get_binded_chain_by_address dyn_object_by_name create_rss_object_with_type structs create
    update_object object_by_name put_value
get_binded_chain-Sure s t a indexed bytes small =
    let (r, e, _) = find_binded-resolve s.binded_chains t a indexed small in
    elim (Option-cases r) [
      | inl nothing ↦
          rw (e, nothing, address_assigned t a small)
            (Sure-bind Nothing HasBytes (send_to_route_server s.rsock Cmd.getchains_request _) _
              (send_to_route_server-Ends s.rsock Cmd.getchains_request _) λ _ _. tt)
      | inr (bc, found) ↦
          rw (e, found)
            (find_binded-All ChainBytes s.binded_chains (get_crc a) (address t a) bc
              (e ∙ ap done found) bytes)
    ]

-- The part of `deliver` behind the search for the chain
written-Ends :
    (s : Server) (co : ClientObject) (written : Bytes → Bool) (proto : ℕ) (payload : Bytes)
    (bc : BindedChain)
    → ChainBytes bc
    → ClientBytes co
    → Ends {A = Server × Bool} (
        iface_data proto bc.binded_addr co.local_addr payload >>= λ bytes.
        done (record s { tun = s.tun ++ (bytes ∷ []) }, written bytes))
written-Ends s co written proto payload bc hb hc =
    Sure-bind Nothing Nothing (iface_data proto bc.binded_addr co.local_addr payload) _
      (iface_data-Ends proto bc.binded_addr co.local_addr payload hb hc) λ _ _. tt

found-Ends :
    (written : Bytes → Bool) (co : ClientObject) (payload : Bytes) (proto : ℕ)
    (found : Server × Option BindedChain)
    → HasBytes found
    → ClientBytes co
    → Ends {A = Server × Bool} (elim found.1 [
      | none ↦ done (found.0, false)
      | some bc ↦ iface_data proto bc.binded_addr co.local_addr payload >>= λ bytes.
          done (record found.0 { tun = found.0.tun ++ (bytes ∷ []) }, written bytes)
    ])
found-Ends written co payload proto (s, none) has client = tt
found-Ends written co payload proto (s, some bc) has client =
    written-Ends s co written proto payload bc has client

created :
    (n : Bytes) (o : Object)
    → create_rss_object_with_type n ≡ done o
    → create nesting structs n ≡ done o
unfolding create_rss_object_with_type
created n o h = h

-- The part of `deliver` behind the parse
delivered : (Bytes → Bool) → Server → ClientObject → Object → Run (Server × Bool)
delivered written s co o = do
  payload ← dyn_object_by_name o (codes "data")
  return_addr ← object_by_name o (codes "return_address")
  found ← get_binded_chain_by_address s return_addr
  elim found.1 [
    | none ↦ done (found.0, false)
    | some bc ↦ do
      proto ← uint_object_by_name o (codes "ip_protocol")
      bytes ← iface_data proto bc.binded_addr co.local_addr payload
      done (record found.0 { tun = found.0.tun ++ (bytes ∷ []) }, written bytes)
  ]

client_delivered-Ends :
    (written : Bytes → Bool) (s : Server) (co : ClientObject) (t : ℕ) (a d : Bytes) (proto : ℕ)
    → All IsIndexed s.binded_chains
    → All ChainBytes s.binded_chains
    → ClientBytes co
    → length a + 5 < int_limit
    → Ends (delivered written s co (client_data (address t a) d proto))
unfolding object_by_name dyn_object_by_name uint_object_by_name delivered
client_delivered-Ends written s co t a d proto indexed numbered client small =
    Sure-bind HasBytes Nothing (get_binded_chain_by_address s (address t a)) _
      (get_binded_chain-Sure s t a indexed numbered small)
      λ found has. found-Ends written co d proto found has client

parsed_delivered-Ends :
    (written : Bytes → Bool) (s : Server) (co : ClientObject) (bytes : Bytes) (o o' : Object)
    (k : ℕ)
    → create_rss_object_with_type (codes "data_packet_encrypted_data") ≡ done o
    → parse nesting structs o bytes (length bytes) ≡ done (parsed o' k)
    → All IsIndexed s.binded_chains
    → All ChainBytes s.binded_chains
    → ClientBytes co
    → length bytes < int_limit
    → Ends (delivered written s co o')
parsed_delivered-Ends written s co bytes o o' k made e indexed numbered client small =
    let ((named, typed), size) =
      new_parsed (codes "data_packet_encrypted_data") o o' bytes (length bytes) k
        (created (codes "data_packet_encrypted_data") o made) e in
    let (t, a, d, proto, form) = client_data_form o' named typed in
    let whole = client_bytes t a d proto in
    subst (λ x. Ends (delivered written s co x)) (sym form)
      (client_delivered-Ends written s co t a d proto indexed numbered client
        (omega (arith, whole, rw form at size, small)))

pub deliver-Ends :
    (written : Bytes → Bool) (s : Server) (co : ClientObject) (bytes : Bytes)
    → All IsIndexed s.binded_chains
    → All ChainBytes s.binded_chains
    → ClientBytes co
    → length bytes < int_limit
    → Ends (deliver written s co bytes)
unfolding deliver delivered object_by_name dyn_object_by_name uint_object_by_name find_description
    structs
deliver-Ends written s co bytes indexed numbered client small =
    let new = create_rss_object_with_type (codes "data_packet_encrypted_data") in
    let news = create_defined (codes "data_packet_encrypted_data") refl in
    Sure-bind (λ o. (new ≡ done o) × Named structs (codes "data_packet_encrypted_data") o) Nothing
      new _ (Sure-self (Named structs (codes "data_packet_encrypted_data")) new news)
      λ o (made, (named, typed)).
        let read = parse nesting structs o bytes (length bytes) in
        Sure-bind (λ r. (read ≡ done r) × Within (length bytes) r) Nothing read _
          (Sure-self (Within (length bytes)) read (
            parse_defined o bytes (length bytes) typed (λ e. distinct _ _ refl (sym named ∙ e))
              (omega arith) small))
          (elim [
            | rejected o' ↦ λ _. tt
            | parsed o' k ↦ λ (e, _).
                parsed_delivered-Ends written s co bytes o o' k made e indexed numbered client small
          ])

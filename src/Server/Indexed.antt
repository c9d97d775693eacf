-- ===== src/Server/Indexed.antt =====
-- That the bound chains of a running device are indexed by the checksums of their names, so that the
-- search by checksum is the directory (src/apps/RSServerCommunication.cpp, RSDNSServer.cpp).
use labyrinthus.Base.{
  ℕ, ◌+◌, ◌%◌, ◌<◌, ◌≡◌, refl, sym, ◌∙◌, ap, Bytes, Bool, true, List, [], ◌∷◌, some, done,
  >>=-eq-done, arith, length, codes, All, All-append,
}
use labyrinthus.Base.Words.{int_limit}
use labyrinthus.Object.Value.{Object}
use labyrinthus.Object.Encode.{encode}
use labyrinthus.Object.Create.{create}
use labyrinthus.Object.Typed.{Named, Post-done}
use labyrinthus.Object.Access.{assign, object_by_name, dyn_object_by_name}
use labyrinthus.Defines.Table.{structs, nesting, create_rss_object_with_type}
use labyrinthus.Defines.Objects.{address, get_chains_response}
use labyrinthus.Defines.Forms.{get_chains_response_form}
use labyrinthus.Checksum.Crc.{get_crc}
use labyrinthus.Socket.Packet.{
  Socket, Event, receive_packet, get_last_packed_data_as_type, is_last_packed_from_route_server,
  is_last_packet_ipv4,
}
use labyrinthus.Socket.Received.{Leaves, receive_packet-Fits, unpacked}
use labyrinthus.Dns.Message.{a_record}
use labyrinthus.Server.State.{Server}
use labyrinthus.Server.Start.{main_state, new_socket, allocate_clients, max_clients}
use labyrinthus.Server.Steps.{Reach, start, next}
use mathlib.Core.Path.{subst}
use labyrinthus.Server.Transition.{Moves, stays, binds, enters, uses}
use labyrinthus.Server.Moves.{BoundFrom}
use labyrinthus.Server.Uses.{Step-Moves}
use labyrinthus.Server.Peeling.{layer}
use labyrinthus.Server.Directory.{IsIndexed, directory}
use labyrinthus.Server.Naming.{answered_by, on_dns_request-directory}
use labyrinthus.Server.Requests.{on_dns_request}
use labyrinthus.Server.Response.{response_of, cut_response, response_bytes, assigned}
use labyrinthus.Server.Ready.{IsReady, Step-IsReady}

same_done : {A : Type 0} {x y : A} → done x ≡ done y → x ≡ y
same_done h = cc

module _ (status : ℕ) (key : Bytes) (method t : ℕ) (name : Bytes) (u : ℕ) (a : Bytes) (m : ℕ)
    (p : Bytes) where
  asked_name :
      (addr_o : Object) (addr : Bytes)
      → object_by_name (response_of status key method t name u a m p) (codes "address")
        ≡ done addr_o
      → dyn_object_by_name addr_o (codes "address") ≡ done addr
      → name ≡ addr
  unfolding object_by_name dyn_object_by_name
  asked_name addr_o addr e₁ e₂ =
      let same : address t name ≡ addr_o = same_done e₁ in
      same_done (ap (λ o. dyn_object_by_name o (codes "address")) same ∙ e₂)

  response-IsIndexed :
      length (encode (response_of status key method t name u a m p)) < int_limit
      → BoundFrom IsIndexed (response_of status key method t name u a m p)
  unfolding create_rss_object_with_type structs create
  response-IsIndexed small ip addr addr_o fresh kept e₁ e₂ e₃ e₄ =
      let made : get_chains_response 0 [] 0 (address 0 []) (layer 0 [] 0 []) ≡ fresh =
        same_done e₃ in
      let copied : (cut_response status key method t name u a m p, true) ≡ kept = same_done (
        sym (assigned status key method t name u a m p small)
        ∙ ap (λ o. assign nesting structs o (response_of status key method t name u a m p)) made
        ∙ e₄) in
      record {
        status = status % 256;
        key = key;
        method = method % 256;
        type = t % 256;
        name = name;
        chain = layer (u % 256) a (m % 256) p;
        short = omega (arith, response_bytes status key method t name u a m p, small);
        kept = sym (ap (λ r. r.0) copied);
        indexed = sym (ap get_crc (asked_name addr_o addr e₁ e₂));
      }

-- A response of less than 2^31 bytes is indexed by the name it is bound to.
bound-IsIndexed :
    (o : Object)
    → Named structs (codes "getChainsResponse") o
    → length (encode o) < int_limit
    → BoundFrom IsIndexed o
bound-IsIndexed o (named, typed) small =
    let (status, key, method, t, name, u, a, m, p, form) = get_chains_response_form o named typed in
    rw form (response-IsIndexed status key method t name u a m p (rw form at small))

is_last-rso_data : (k : Socket) → (is_last_packed_from_route_server k).0.rso_data ≡ k.rso_data
unfolding is_last_packed_from_route_server is_last_packet_ipv4
is_last-rso_data k = ground arith

received-IsIndexed :
    (k₀ k : Socket) (events rest : List Event) (o : Object)
    → length k₀.buffer < int_limit
    → receive_packet k₀ events ≡ done (k, true, rest)
    → get_last_packed_data_as_type
        (is_last_packed_from_route_server k).0
        (codes "getChainsResponse")
      ≡ done (some o)
    → BoundFrom IsIndexed o
received-IsIndexed k₀ k events rest o small got e =
    let from = (is_last_packed_from_route_server k).0 in
    let (_, size, holds) =
      Post-done (Leaves k₀.is_open (length k₀.buffer)) (receive_packet k₀ events) (k, true, rest)
        (receive_packet-Fits k₀ events) got in
    let (named, fits) =
      unpacked (length k₀.buffer) from (codes "getChainsResponse") o (rw (is_last-rso_data k) holds)
        e in
    bound-IsIndexed o named (omega (arith, fits, small))

moved-IsIndexed :
    (s s' : Server)
    → Moves IsIndexed s s'
    → All IsIndexed s.binded_chains
    → All IsIndexed s'.binded_chains
moved-IsIndexed s s' (stays e) h = subst (All IsIndexed) (sym (ap (λ c. c.0) e)) h
moved-IsIndexed s s' (binds bc good ip e) h =
    subst (All IsIndexed) (sym (ap (λ c. c.0) e))
      (All-append IsIndexed s.binded_chains (bc ∷ []) h (good, tt))
moved-IsIndexed s s' (enters name e) h = subst (All IsIndexed) (sym (ap (λ c. c.0) e)) h
moved-IsIndexed s s' (uses i co co' here t e) h = subst (All IsIndexed) (sym (ap (λ c. c.0) e)) h

-- In every state that the program comes to the socket is open, and its buffer below 2^31 bytes.
pub Reach-IsReady : {written : Bytes → Bool} {s : Server} → Reach written s → IsReady s.rsock
unfolding main_state new_socket
Reach-IsReady (start sin slen buff small h) =
    let (clients, _, q) = >>=-eq-done (allocate_clients max_clients 0) _ h in
    subst (λ s. IsReady s.rsock) (same_done q) (refl, small)
Reach-IsReady {written} (next {r} {s} h step) = Step-IsReady written r s step (Reach-IsReady h)

-- In every state that the program comes to, after any rounds of its three threads in any order and
-- on any datagrams, each bound chain keeps a whole response, whose address has a name of less than
-- 2^31 - 5 bytes, and the checksum of that name stands beside it.
pub Reach-IsIndexed :
    {written : Bytes → Bool} {s : Server} → Reach written s → All IsIndexed s.binded_chains
unfolding main_state new_socket
Reach-IsIndexed (start sin slen buff small h) =
    let (clients, _, q) = >>=-eq-done (allocate_clients max_clients 0) _ h in
    subst (λ s. All IsIndexed s.binded_chains) (same_done q) tt
Reach-IsIndexed {written} (next {r} {s} h step) =
    moved-IsIndexed r s
      (Step-Moves IsIndexed written r s
        (λ k events rest o got. received-IsIndexed r.rsock k events rest o (Reach-IsReady h).1 got)
        step)
      (Reach-IsIndexed h)

-- In every state that the program comes to, a request of more than twelve bytes for the address of
-- a name of less than 2^31 - 64 bytes does what the directory from names to addresses says: a name
-- that it has is answered with its address, for another the server is asked for a chain and the
-- request waits.
pub Reach-directory :
    {written : Bytes → Bool} (s : Server) (now : ℕ) (name : Bytes) (u : ℕ) (sa all : Bytes)
    → Reach written s
    → length name + 64 < int_limit
    → 12 < length all
    → on_dns_request s now name a_record u sa all
      ≡ done (answered_by (directory s name) s now name u sa all)
Reach-directory s now name u sa all h short long =
    on_dns_request-directory s now name u sa all (Reach-IsReady h).0 short (Reach-IsIndexed h)

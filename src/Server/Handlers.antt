-- ===== src/Server/Handlers.antt =====
-- The handlers of the route server's responses never end badly
-- (src/apps/RSServerCommunication.cpp).
use labyrinthus.Base.{ℕ, ◌+◌, ◌<◌, ◌≡◌, Bytes, ◌==◌, codes, length, arith, length-append}
use labyrinthus.Base.Words.{int_limit}
use labyrinthus.Object.Value.{Object}
use labyrinthus.Object.Create.{create}
use labyrinthus.Object.Encode.{encode}
use labyrinthus.Object.Access.{
  copy, object_by_name, dyn_object_by_name, uint_object_by_name, set_uint_object_by_name, put_value,
}
use labyrinthus.Object.Shape.{depth}
use labyrinthus.Object.Copies.{copy-normalize}
use labyrinthus.Object.Typed.{Named}
use labyrinthus.Object.Safety.{Sure-bind, Sure-if}
use labyrinthus.Object.Safety.Total.{Ends}
use labyrinthus.Defines.Table.{structs, nesting, create_rss_object_with_type, response_ok}
use labyrinthus.Defines.AddrType
use labyrinthus.Defines.Cmd
use labyrinthus.Defines.Objects.{address, address-IsSound, device_connect_response}
use labyrinthus.Defines.Forms.{get_chains_response_form}
use labyrinthus.Defines.Responses.{set_chains_response_form, device_connect_response_form}
use labyrinthus.Socket.Packet.{Socket, send_to_route_server, send_to_sock_addr}
use labyrinthus.Socket.Delivery.{wrap_packet_lem}
use labyrinthus.Server.State.{Server}
use labyrinthus.Server.Response.{response_of, assigned}
use labyrinthus.Server.Receiver.{
  bind_chain, on_get_chains_response, on_set_chains_response, on_device_connect_response,
}

pub send_to_route_server-Ends :
    (k : Socket) (cmd : ℕ) (o : Object) → Ends (send_to_route_server k cmd o)
unfolding send_to_route_server send_to_sock_addr
send_to_route_server-Ends k cmd o =
    rw (wrap_packet_lem cmd o) (Sure-if (λ _. Unit {0}) k.is_open _ _ (λ _. tt) (λ _. tt))

chains_bound-Ends :
    (s : Server) (status : ℕ) (key : Bytes) (method t : ℕ) (name : Bytes) (u : ℕ) (a : Bytes)
    (m : ℕ) (p : Bytes)
    → length (encode (response_of status key method t name u a m p)) < int_limit
    → Ends (on_get_chains_response s (response_of status key method t name u a m p))
unfolding on_get_chains_response bind_chain object_by_name dyn_object_by_name uint_object_by_name
    create_rss_object_with_type structs create
chains_bound-Ends s status key method t name u a m p small =
    Sure-if (λ _. Unit {0}) (status == response_ok) _ _
      (λ _. rw (assigned status key method t name u a m p small) tt) (λ _. tt)

pub on_get_chains_response-Ends :
    (s : Server) (o : Object)
    → Named structs (codes "getChainsResponse") o
    → length (encode o) < int_limit
    → Ends (on_get_chains_response s o)
on_get_chains_response-Ends s o (named, typed) small =
    let (status, key, method, t, name, u, a, m, p, form) = get_chains_response_form o named typed in
    rw form (chains_bound-Ends s status key method t name u a m p (rw form at small))

pub on_set_chains_response-Ends :
    (s : Server) (o : Object)
    → Named structs (codes "setChainsResponse") o
    → Ends (on_set_chains_response s o)
unfolding on_set_chains_response object_by_name dyn_object_by_name uint_object_by_name
on_set_chains_response-Ends s o (named, typed) =
    let (status, t, a, form) = set_chains_response_form o named typed in
    rw form (Sure-if (λ _. Unit {0}) (t == AddrType.domain) _ _ (λ _. tt) (λ _. tt))

pub response_size :
    (status t : ℕ) (a : Bytes)
    → length (encode (device_connect_response status (address t a))) ≡ length a + 6
unfolding encode
response_size status t a = simp length-append (omega arith)

pub address_size : (t : ℕ) (a : Bytes) → length (encode (address t a)) ≡ length a + 5
unfolding encode
address_size t a = simp length-append (omega arith)

connected-Ends :
    (s : Server) (status t : ℕ) (a : Bytes)
    → length (encode (device_connect_response status (address t a))) < int_limit
    → Ends (on_device_connect_response s (device_connect_response status (address t a)))
unfolding on_device_connect_response object_by_name uint_object_by_name create_rss_object_with_type
    structs create set_uint_object_by_name put_value depth encode
connected-Ends s status t a small =
    let whole = response_size status t a in
    let part = address_size t a in
    Sure-if (λ _. Unit {0}) (status == response_ok) _ _
      (λ _.
        Sure-bind (λ _. Unit {0}) (λ _. Unit {0}) (copy nesting structs (address t a)) _
          (rw
            (copy-normalize nesting structs (address t a)
              (address-IsSound t a (omega (arith, whole, small))) (omega arith)
              (omega (arith, whole, part, small)))
            tt)
          λ mine _.
            Sure-bind (λ _. Unit {0}) (λ _. Unit {0})
              (send_to_route_server s.rsock Cmd.getdevices_request _) _
              (send_to_route_server-Ends s.rsock Cmd.getdevices_request _) λ _ _. tt)
      (λ _. tt)

pub on_device_connect_response-Ends :
    (s : Server) (o : Object)
    → Named structs (codes "onDeviceConnectResponse") o
    → length (encode o) < int_limit
    → Ends (on_device_connect_response s o)
on_device_connect_response-Ends s o (named, typed) small =
    let (status, t, a, form) = device_connect_response_form o named typed in
    rw form (connected-Ends s status t a (rw form at small))

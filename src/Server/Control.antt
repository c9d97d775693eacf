-- ===== src/Server/Control.antt =====
-- The handlers of the route server's packets never end badly (src/apps/RSServerCommunication.cpp).
use labyrinthus.Base.{
  bytes_eq, bytes_eq_refl, false, exited, fault, out_of_fuel, ℕ, ◌<◌, ◌≡◌, ◌≢◌, refl, sym, ap, ◌∙◌,
  Bytes, Bool, true, List, ◌==◌, ==_iff, some, none, Run, done, codes, length, arith, inl, inr,
  Option-cases,
}
use labyrinthus.Base.Words.{int_limit}
use labyrinthus.Object.Value.{Object}
use labyrinthus.Object.Encode.{encode}
use labyrinthus.Object.Parse.{parse}
use labyrinthus.Object.Description.{find_description}
use labyrinthus.Object.Access.{dyn_object_by_name, uint_object_by_name}
use labyrinthus.Object.Typed.{Named, Post-done}
use labyrinthus.Object.Safety.{Sure, Sure-bind, Sure-if, Within}
use labyrinthus.Object.Safety.Total.{Ends}
use labyrinthus.Defines.Table.{structs, nesting, create_rss_object_with_type}
use labyrinthus.Defines.Cmd
use labyrinthus.Defines.Objects.{packet}
use labyrinthus.Defines.Safe.{create_defined, parse_defined}
use labyrinthus.Socket.Packet.{
  Socket, Event, receive_packet, get_last_cmd, get_last_packet_data, get_last_packed_data_as_type,
  is_last_packed_from_route_server, is_last_packet_ipv4,
}
use labyrinthus.Socket.Received.{Holds, Leaves, receive_packet-Fits, unpacked}
use labyrinthus.Server.State.{Server}
use labyrinthus.Server.Steps.{Reach, next, packet as packet_step}
use labyrinthus.Server.Indexed.{Reach-IsReady}
use labyrinthus.Server.Receiver.{
  on_get_chains_response, on_set_chains_response, on_device_connect_response, unpack, dispatch,
  handle_packet,
}
use labyrinthus.Server.Handlers.{
  on_get_chains_response-Ends, on_set_chains_response-Ends, on_device_connect_response-Ends,
}

pub ended : {A : Type 0} (P : A → Type 0) (m : Run A) → Sure P m → (a : A) × (m ≡ done a) × P a
ended P (done a) h = (a, refl, h)
ended P exited h = absurd h
ended P fault h = absurd h
ended P out_of_fuel h = absurd h

pub distinct : (m n : Bytes) → bytes_eq m n ≡ false → m ≢ n
distinct m n h e = let same : bytes_eq m n ≡ true = rw e (bytes_eq_refl n) in cc

pub got_as_type-Ends :
    (k : Socket) (c : ℕ) (p : Bytes) (n text : Bytes)
    → k.rso_data ≡ some (packet c p)
    → length p < int_limit
    → find_description structs n ≡ some text
    → n ≢ codes "getDevicesResponse"
    → Ends (get_last_packed_data_as_type k n)
unfolding get_last_packed_data_as_type get_last_packet_data dyn_object_by_name
got_as_type-Ends k c p n text held small found other = rw held (
    Sure-bind (Named structs n) (λ _. Unit {0}) (create_rss_object_with_type n) _
      (create_defined n found)
      λ o named.
        Sure-bind (Within (length p)) (λ _. Unit {0}) (parse nesting structs o p (length p)) _
          (parse_defined o p (length p) named.1 (λ e. other (sym named.0 ∙ e)) (omega arith) small)
          λ r _. tt)

pub unpack-Ends :
    (s : Server) (n text : Bytes) (N : ℕ) (handler : Object → Run Server) (o : Object)
    → s.rsock.rso_data ≡ some o
    → Holds N (some o)
    → N < int_limit
    → find_description structs n ≡ some text
    → n ≢ codes "getDevicesResponse"
    → ((o : Object) → Named structs n o → length (encode o) < int_limit → Ends (handler o))
    → Ends (unpack s n handler)
unfolding unpack
unpack-Ends s n text N handler o held (c, p, form, fits) small found other k =
    let (r, e, _) =
      ended (λ _. Unit {0}) (get_last_packed_data_as_type s.rsock n)
        (got_as_type-Ends s.rsock c p n text (held ∙ ap some form) (omega (arith, fits, small))
          found other) in
    elim (Option-cases r) [
      | inl nothing ↦ rw (e, nothing) tt
      | inr (o', q) ↦
          let (named, size) =
            unpacked N s.rsock n o' (rw held (c, p, form, fits)) (e ∙ ap done q) in
          rw (e, q) (k o' named (omega (arith, size, small)))
    ]

dispatch-Ends :
    (written : Bytes → Bool) (s : Server) (cmd_id N : ℕ) (o : Object)
    → s.rsock.rso_data ≡ some o
    → Holds N (some o)
    → N < int_limit
    → cmd_id ≢ Cmd.getdevices_response
    → Ends (dispatch written s true cmd_id)
unfolding dispatch find_description structs
dispatch-Ends written s cmd_id N o held holds small other =
    let T : Server → Type 0 = λ _. Unit {0} in
    Sure-if T (cmd_id == Cmd.getchains_response) _ _
      (λ _.
        unpack-Ends s (codes "getChainsResponse") _ N (on_get_chains_response s) o held holds small
          refl (distinct _ _ refl) (on_get_chains_response-Ends s))
      λ _.
        Sure-if T (cmd_id == Cmd.setchains_response) _ _
          (λ _.
            unpack-Ends s (codes "setChainsResponse") _ N (on_set_chains_response s) o held holds
              small refl (distinct _ _ refl) (λ o named _. on_set_chains_response-Ends s o named))
          λ _.
            Sure-if T (cmd_id == Cmd.ondeviceconnect_response) _ _
              (λ _.
                unpack-Ends s (codes "onDeviceConnectResponse") _ N (on_device_connect_response s) o
                  held holds small refl (distinct _ _ refl) (on_device_connect_response-Ends s))
              λ _.
                Sure-if T (cmd_id == Cmd.getdevices_response) _ _
                  (λ e. absurd (other ((==_iff cmd_id Cmd.getdevices_response).0 e))) λ _. tt

-- The command of a packet
pub cmd_of :
    (k : Socket) (c : ℕ) (p : Bytes) → k.rso_data ≡ some (packet c p) → get_last_cmd k ≡ done c
unfolding get_last_cmd uint_object_by_name
cmd_of k c p held = rw held refl

pub no_cmd : (k : Socket) → k.rso_data ≡ none → get_last_cmd k ≡ done Cmd.undefined
unfolding get_last_cmd
no_cmd k nothing = rw nothing refl

pub is_last-rso_data : (k : Socket) → (is_last_packed_from_route_server k).0.rso_data ≡ k.rso_data
unfolding is_last_packed_from_route_server is_last_packet_ipv4
is_last-rso_data k = ground arith

handle_packet-Ends :
    (written : Bytes → Bool) (s : Server) (N : ℕ)
    → Holds N s.rsock.rso_data
    → N < int_limit
    → (is_last_packed_from_route_server s.rsock).1 ≡ true
    → get_last_cmd s.rsock ≢ done Cmd.getdevices_response
    → Ends (handle_packet written s)
unfolding handle_packet dispatch
handle_packet-Ends written s N holds small from other = elim (Option-cases s.rsock.rso_data) [
  | inl nothing ↦ rw (no_cmd s.rsock nothing, from) tt
  | inr (o, held) ↦
      let (c, p, form, fits) = rw held at holds in
      let cmd = cmd_of s.rsock c p (held ∙ ap some form) in
      let s' : Server = record s { rsock = (is_last_packed_from_route_server s.rsock).0 } in
      rw (cmd, from)
        (dispatch-Ends written s' c N o (is_last-rso_data s.rsock ∙ held) (c, p, form, fits) small
          (λ e. other (cmd ∙ ap done e)))
]

-- In every state that the program comes to, whatever the payload of a packet that was received
-- from the route server holds, unless its command is that of a getDevicesResponse: the receiver
-- handles it and goes on, in a state that the program comes to, never in undefined behaviour and
-- never by exit.
pub control_round :
    {written : Bytes → Bool} {s : Server} (k : Socket) (events rest : List Event)
    → Reach written s
    → receive_packet s.rsock events ≡ done (k, true, rest)
    → (is_last_packed_from_route_server k).1 ≡ true
    → get_last_cmd k ≢ done Cmd.getdevices_response
    → (s' : Server) × (handle_packet written (record s { rsock = k }) ≡ done s') × Reach written s'
control_round {written} {s} k events rest way got from other =
    let (_, small) = Reach-IsReady way in
    let (_, _, holds) =
      Post-done (Leaves s.rsock.is_open (length s.rsock.buffer)) (receive_packet s.rsock events)
        (k, true, rest) (receive_packet-Fits s.rsock events) got in
    let (s', e, _) =
      ended (λ _. Unit {0}) (handle_packet written (record s { rsock = k }))
        (handle_packet-Ends written (record s { rsock = k }) (length s.rsock.buffer) holds small
          from other) in
    (s', e, next way (packet_step k events rest got e))

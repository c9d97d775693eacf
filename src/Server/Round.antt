-- ===== src/Server/Round.antt =====
-- A round of `receiver` on any packet (src/apps/RSServerCommunication.cpp).
use mathlib.Core.Path.{subst}
use labyrinthus.Base.{
  ℕ, ◌%◌, ◌≤◌, ◌<◌, ◌≡◌, ◌≢◌, refl, sym, ap, ◌∙◌, Bytes, Bool, true, false, List, ◌==◌, some, done,
  ◌>>=◌, codes, length, arith, inl, inr, Option-cases, Bool-cases, All,
}
use labyrinthus.Base.Words.{int_limit}
use labyrinthus.Object.Value.{Object}
use labyrinthus.Object.Encode.{encode}
use labyrinthus.Object.Description.{find_description}
use labyrinthus.Object.Typed.{Named, Post-done}
use labyrinthus.Object.Safety.{Sure-bind, Sure-if}
use labyrinthus.Object.Safety.Total.{Ends}
use labyrinthus.Defines.Table.{structs}
use labyrinthus.Defines.AddrType
use labyrinthus.Defines.Cmd
use labyrinthus.Defines.Objects.{data_packet}
use labyrinthus.Defines.DataPackets.{data_packet_form}
use labyrinthus.Socket.Packet.{
  Socket, Event, receive_packet, get_last_cmd, get_last_packed_data_as_type,
  is_last_packed_from_route_server,
}
use labyrinthus.Socket.Received.{Holds, Leaves, receive_packet-Fits, unpacked}
use labyrinthus.Server.State.{Server}
use labyrinthus.Server.Peeling.{layer}
use labyrinthus.Server.Directory.{IsIndexed}
use labyrinthus.Server.Invariant.{Reach-IsConsistent}
use labyrinthus.Server.Numbered.{ChainBytes, ClientBytes, numbered_bytes, addressed_bytes}
use labyrinthus.Server.Routing.{apply_and_route_rss_packet}
use labyrinthus.Server.Receiver.{unpack, dispatch, handle_packet}
use labyrinthus.Server.Steps.{Reach, next, packet as packet_step}
use labyrinthus.Server.Indexed.{Reach-IsReady, Reach-IsIndexed}
use labyrinthus.Server.Passing.{apply_and_route-Ends}
use labyrinthus.Server.Control.{
  control_round, ended, distinct, got_as_type-Ends, cmd_of, no_cmd, is_last-rso_data,
}

-- What is known of the bound chains and of the clients
abbrev Known : Server → Type 0
Known s =
    All IsIndexed s.binded_chains
    × All ChainBytes s.binded_chains
    × All ClientBytes s.registred_clients

-- The first layer of the packet that is unpacked has no IPv4 address of less than three bytes.
abbrev pub Long : Socket → Type 0
Long k =
    (t : ℕ) (a : Bytes) (m : ℕ) (p payload : Bytes)
    → get_last_packed_data_as_type k (codes "data_packet_t")
      ≡ done (some (data_packet (layer t a m p) payload))
    → t % 256 ≡ AddrType.ip4
    → 3 ≤ length a

routed-Ends :
    (written : Bytes → Bool) (s : Server) (o : Object)
    → Known s
    → Named structs (codes "data_packet_t") o
    → length (encode o) < int_limit
    → ((t : ℕ) (a : Bytes) (m : ℕ) (p payload : Bytes)
        → o ≡ data_packet (layer t a m p) payload
        → t % 256 ≡ AddrType.ip4
        → 3 ≤ length a)
    → Ends (apply_and_route_rss_packet written s o >>= λ r. done r.0)
routed-Ends written s o (indexed, numbered, clients) (named, typed) small long =
    let (t, a, m, p, payload, form) = data_packet_form o named typed in
    subst (λ x. Ends (apply_and_route_rss_packet written s x >>= λ r. done r.0)) (sym form)
      (Sure-bind (λ _. Unit {0}) (λ _. Unit {0})
        (apply_and_route_rss_packet written s (data_packet (layer t a m p) payload)) _
        (apply_and_route-Ends written s t a m p payload indexed numbered clients (rw form at small)
          (long t a m p payload form))
        λ _ _. tt)

unpacked-Ends :
    (written : Bytes → Bool) (s : Server) (N : ℕ) (o : Object)
    → Known s
    → s.rsock.rso_data ≡ some o
    → Holds N (some o)
    → N < int_limit
    → Long s.rsock
    → Ends (
        unpack s
          (codes "data_packet_t")
          (λ o. apply_and_route_rss_packet written s o >>= λ r. done r.0))
unfolding unpack find_description structs
unpacked-Ends written s N o known held (c, p, form, fits) small long =
    let n = codes "data_packet_t" in
    let (r, e, _) =
      ended (λ _. Unit {0}) (get_last_packed_data_as_type s.rsock n)
        (got_as_type-Ends s.rsock c p n _ (held ∙ ap some form) (omega (arith, fits, small)) refl
          (distinct _ _ refl)) in
    elim (Option-cases r) [
      | inl nothing ↦ rw (e, nothing) tt
      | inr (o', q) ↦
          let (named, size) =
            unpacked N s.rsock n o' (rw held (c, p, form, fits)) (e ∙ ap done q) in
          rw (e, q)
            (routed-Ends written s o' known named (omega (arith, size, small))
              λ t a m p' payload same. long t a m p' payload (e ∙ ap done (q ∙ ap some same)))
    ]

handle_packet-Ends :
    (written : Bytes → Bool) (s : Server) (N : ℕ)
    → Known s
    → Holds N s.rsock.rso_data
    → N < int_limit
    → (is_last_packed_from_route_server s.rsock).1 ≡ false
    → Long (is_last_packed_from_route_server s.rsock).0
    → Ends (handle_packet written s)
unfolding handle_packet dispatch
handle_packet-Ends written s N known holds small from long = elim (Option-cases s.rsock.rso_data) [
  | inl nothing ↦ rw (no_cmd s.rsock nothing, from) tt
  | inr (o, held) ↦
      let (c, p, form, fits) = rw held at holds in
      let cmd = cmd_of s.rsock c p (held ∙ ap some form) in
      let s' : Server = record s { rsock = (is_last_packed_from_route_server s.rsock).0 } in
      rw (cmd, from)
        (Sure-if (λ _. Unit {0}) (c == Cmd.send_packet) _ _
          (λ _.
            unpacked-Ends written s' N o known (is_last-rso_data s.rsock ∙ held) (c, p, form, fits)
              small long)
          λ _. tt)
]

data_round :
    {written : Bytes → Bool} {s : Server} (k : Socket) (events rest : List Event)
    → Reach written s
    → receive_packet s.rsock events ≡ done (k, true, rest)
    → (is_last_packed_from_route_server k).1 ≡ false
    → Long (is_last_packed_from_route_server k).0
    → (s' : Server) × (handle_packet written (record s { rsock = k }) ≡ done s') × Reach written s'
data_round {written} {s} k events rest way got from long =
    let (_, small) = Reach-IsReady way in
    let (_, numbered, addressed, _) = Reach-IsConsistent written s way in
    let known : Known s = (
      Reach-IsIndexed way,
      numbered_bytes 0 s.binded_chains numbered,
      addressed_bytes 0 s.registred_clients addressed,
    ) in
    let (_, _, holds) =
      Post-done (Leaves s.rsock.is_open (length s.rsock.buffer)) (receive_packet s.rsock events)
        (k, true, rest) (receive_packet-Fits s.rsock events) got in
    let (s', e, _) =
      ended (λ _. Unit {0}) (handle_packet written (record s { rsock = k }))
        (handle_packet-Ends written (record s { rsock = k }) (length s.rsock.buffer) known holds
          small from long) in
    (s', e, next way (packet_step k events rest got e))

-- In every state that the program comes to, whatever the payload of a packet that was received
-- holds: the receiver handles it and goes on, in a state that the program comes to, never in
-- undefined behaviour and never by exit, unless it is a getDevicesResponse of the route server, or
-- the packet of another sender to be sent on whose first layer has an IPv4 address of fewer than
-- three bytes.
pub packet_round :
    {written : Bytes → Bool} {s : Server} (k : Socket) (events rest : List Event)
    → Reach written s
    → receive_packet s.rsock events ≡ done (k, true, rest)
    → ((is_last_packed_from_route_server k).1 ≡ true
        → get_last_cmd k ≢ done Cmd.getdevices_response)
    → ((is_last_packed_from_route_server k).1 ≡ false → Long (is_last_packed_from_route_server k).0)
    → (s' : Server) × (handle_packet written (record s { rsock = k }) ≡ done s') × Reach written s'
packet_round k events rest way got other long =
    elim (Bool-cases (is_last_packed_from_route_server k).1) [
      | inl from ↦ control_round k events rest way got from (other from)
      | inr from ↦ data_round k events rest way got from (long from)
    ]

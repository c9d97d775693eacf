-- ===== src/Server/Uses.antt =====
-- What the functions that use a client change of the chains and of the clients
-- (src/apps/RSServerCommunication.cpp, RSRouter.cpp).
use labyrinthus.Dns.Message.{parse_request}
use labyrinthus.Server.Receiver.{handle_packet}
use labyrinthus.Server.Start.{on_device_connect}
use labyrinthus.Server.Requests.{dns_datagram}
use labyrinthus.Object.Value.{Object}
use labyrinthus.Socket.Packet.{
  get_last_packed_data_as_type, receive_packet, Event, Socket, is_last_packed_from_route_server,
  get_last_cmd, send_to_route_server,
}
use labyrinthus.Address.Binding.{chain_id, client_id}
use labyrinthus.Base.{
  codes, true, ap, sym, none, [], ◌∷◌, ◌∷◌, List, ◌&&◌, inr, ◌∙◌, Bool-cases, inl, >>=-eq-done,
  Option-cases, Bool, some, arith, get_elem?, Option, done, Bytes, ℕ, zero, suc, ◌+◌, ◌≡◌, refl,
}
use labyrinthus.Defines.Cmd
use labyrinthus.Server.State.{
  BindedChain, Server, ClientObject, ClientState, undefined, unused, used, wait_response, registred,
}
use labyrinthus.Server.Onion.{make_and_append_chain}
use labyrinthus.Server.Clients.{
  append_chains, start_client, use_client, client_info, get_client_info_by_id, set_chains_request,
}
use labyrinthus.Server.Tunnel.{ip_dst_of, is_to_chain, is_ip4, ip_src_of, tunnel_packet, to_chain}
use labyrinthus.Server.Frame.{on_dns_request-Keeps, view, into_chain-Keeps}
use mathlib.Core.Path.{subst}
use labyrinthus.Server.Transition.{noted, uses, starts, Transition, Moves, moved_on, stays}
use labyrinthus.Server.Steps.{Step, connect, packet, request, tunnelled}
use labyrinthus.Server.Moves.{BoundFrom, dispatch-Moves, view-done}

-- Chains are appended to a client without another change.
abbrev with_chains : Object → ClientObject → ClientObject
with_chains os co = record co { chains = os }

done_same : (co co' : ClientObject) → done co ≡ done co' → co' ≡ co
done_same co co' h = cc

kept_whole : (co co' : ClientObject) → co' ≡ co → co' ≡ with_chains co'.chains co
kept_whole co co' e = ap (λ x. with_chains co'.chains x) e

make_and_append_chain-kept :
    (s : Server) (co : ClientObject) (r₀ r₁ : ℕ) (co' : ClientObject)
    → make_and_append_chain s co r₀ r₁ ≡ done co'
    → co' ≡ with_chains co'.chains co
unfolding make_and_append_chain
make_and_append_chain-kept s co r₀ r₁ co' h = ground arith

append_chains-kept :
    (s : Server) (rands : ℕ → ℕ) (n from : ℕ) (co co' : ClientObject)
    → append_chains s rands from n co ≡ done co'
    → co' ≡ with_chains co'.chains co
unfolding append_chains
append_chains-kept s rands zero from co co' h = kept_whole co co' (done_same co co' h)
append_chains-kept s rands (suc n) from co co' h =
    let (co₁, e, q) =
      >>=-eq-done (make_and_append_chain s co (rands from) (rands (from + 1))) _ h in
    append_chains-kept s rands n (from + 2) co₁ co' q
    ∙ ap (with_chains co'.chains)
        (make_and_append_chain-kept s co (rands from) (rands (from + 1)) co₁ e)

start_client-Transition :
    (s : Server) (rands : ℕ → ℕ) (co co' : ClientObject)
    → co.client_state ≡ unused
    → start_client s rands co ≡ done co'
    → Transition co co'
unfolding start_client
start_client-Transition s rands co co' un h =
    subst (Transition co) (sym (append_chains-kept s rands 5 _ _ co' h)) (starts _ _ co'.chains un)

pair_view :
    (s : Server) (co : Option ClientObject) (r : Server × Option ClientObject)
    → done (s, co) ≡ done r
    → view r.0 ≡ view s
pair_view s co r h = cc

module _ (P : BindedChain → Type 0) where
  use_client-Moves :
      (s : Server) (rands : ℕ → ℕ) (i : ℕ) (co : ClientObject) (s' : Server)
      → get_elem? s.registred_clients i ≡ some co
      → co.client_state ≡ unused
      → use_client s rands i co ≡ done s'
      → Moves P s s'
  unfolding use_client
  use_client-Moves s rands i co s' here un h =
      let (co', e, h₁) = >>=-eq-done (start_client s rands co) _ h in
      let (req, _, h₂) = >>=-eq-done (set_chains_request co') _ h₁ in
      let (sent, _, h₃) =
        >>=-eq-done (send_to_route_server s.rsock Cmd.setchains_request req) _ h₂ in
      uses i co co' here (start_client-Transition s rands co co' un e) (view-done h₃)

  unused_info-Moves :
      (now : ℕ) (rands : ℕ → ℕ) (s : Server) (i : ℕ) (co : ClientObject)
      (r : Server × Option ClientObject) (devices : List Object)
      → get_elem? s.registred_clients i ≡ some co
      → co.client_state ≡ unused
      → s.devices ≡ devices
      → client_info now rands s i co ≡ done r
      → Moves P s r.0
  unfolding client_info
  unused_info-Moves now rands s i co r [] here e d h = stays (ground (arith, e, d))
  unused_info-Moves now rands s i co r (o ∷ os) here e d h =
      let (s', e', q) = >>=-eq-done (use_client s rands i co) _ (rw (client_info, e, d) at h) in
      moved_on P s s' r.0 (use_client-Moves s rands i co s' here e e') (pair_view s' none r q)

  client_info-Moves :
      (now : ℕ) (rands : ℕ → ℕ) (s : Server) (i : ℕ) (co : ClientObject)
      (r : Server × Option ClientObject) (state : ClientState)
      → get_elem? s.registred_clients i ≡ some co
      → co.client_state ≡ state
      → client_info now rands s i co ≡ done r
      → Moves P s r.0
  unfolding client_info
  client_info-Moves now rands s i co r registred here e h =
      uses i co (record co { last_activity_time = now }) here (noted now e) (ground (arith, e))
  client_info-Moves now rands s i co r unused here e h =
      unused_info-Moves now rands s i co r s.devices here e refl h
  client_info-Moves now rands s i co r used here e h = stays (ground (arith, e))
  client_info-Moves now rands s i co r wait_response here e h = stays (ground (arith, e))
  client_info-Moves now rands s i co r undefined here e h = stays (ground (arith, e))

  get_client_info_by_id-Moves :
      (now : ℕ) (rands : ℕ → ℕ) (s : Server) (i : ℕ) (r : Server × Option ClientObject)
      → get_client_info_by_id now rands s i ≡ done r
      → Moves P s r.0
  unfolding get_client_info_by_id
  get_client_info_by_id-Moves now rands s i r h =
      elim (Option-cases (get_elem? s.registred_clients i)) [
        | inl nobody ↦ stays (ground (arith, nobody))
        | inr (co, here) ↦
            client_info-Moves now rands s i co r co.client_state here refl
              (rw (get_client_info_by_id, here) at h)
      ]

  to_chain-Moves :
      (written : Bytes → Bool) (now : ℕ) (rands : ℕ → ℕ) (s : Server) (buffer : Bytes) (s' : Server)
      → to_chain written now rands s buffer ≡ done s'
      → Moves P s s'
  unfolding to_chain
  to_chain-Moves written now rands s buffer s' h =
      let (info, e, q) =
        >>=-eq-done (get_client_info_by_id now rands s (client_id (ip_src_of buffer))) _ h in
      let moves = get_client_info_by_id-Moves now rands s (client_id (ip_src_of buffer)) info e in
      elim (Option-cases info.1) [
        | inl nothing ↦ moved_on P s info.0 s' moves (view-done (rw nothing at q))
        | inr (ca, known) ↦ moved_on P s info.0 s' moves (
            into_chain-Keeps written info.0 ca buffer
              (get_elem? info.0.binded_chains (chain_id (ip_dst_of buffer))) s' (rw known at q))
      ]

  pub tunnel_packet-Moves :
      (written : Bytes → Bool) (now : ℕ) (rands : ℕ → ℕ) (s : Server) (buffer : Bytes) (s' : Server)
      → tunnel_packet written now rands s buffer ≡ done s'
      → Moves P s s'
  unfolding tunnel_packet
  tunnel_packet-Moves written now rands s buffer s' h =
      elim (Bool-cases (is_ip4 buffer && is_to_chain buffer)) [
        | inl yes_chain ↦ to_chain-Moves written now rands s buffer s' (rw yes_chain at h)
        | inr other ↦ stays (view-done (rw other at h))
      ]

-- Each round of each thread makes one such change, or none.
pub Step-Moves :
    (P : BindedChain → Type 0) (written : Bytes → Bool) (s s' : Server)
    → ((k : Socket) (events rest : List Event) (o : Object)
        → receive_packet s.rsock events ≡ done (k, true, rest)
        → get_last_packed_data_as_type
            (is_last_packed_from_route_server k).0
            (codes "getChainsResponse")
          ≡ done (some o)
        → BoundFrom P o)
    → Step written s s'
    → Moves P s s'
unfolding dns_datagram on_device_connect handle_packet
Step-Moves P written s s' fits (connect h) = stays (ground arith)
Step-Moves P written s s' fits (packet k events rest got h) =
    let (cmd_id, _, q) = >>=-eq-done (get_last_cmd k) _ h in
    dispatch-Moves P written (record s { rsock = (is_last_packed_from_route_server k).0 })
      (is_last_packed_from_route_server k).1 cmd_id s' (λ o. fits k events rest o got) q
Step-Moves P written s s' fits (request now u sa buffer h) =
    elim (Option-cases (parse_request buffer)) [
      | inl nothing ↦ stays (view-done (rw (dns_datagram, nothing) at h))
      | inr (r, asked) ↦ stays (
          on_dns_request-Keeps s now r.address r.dns_type u sa buffer s'
            (rw (dns_datagram, asked) at h))
    ]
Step-Moves P written s s' fits (tunnelled now rands buffer h) =
    (tunnel_packet-Moves P written now rands s buffer s' h)

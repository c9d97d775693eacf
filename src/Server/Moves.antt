-- ===== src/Server/Moves.antt =====
-- What a received packet changes of the chains and of the addresses
-- (src/apps/RSServerCommunication.cpp).
use labyrinthus.Base.{
  ap, ℕ, ◌≡◌, refl, ◌∙◌, inl, inr, Bytes, Bool, Option, some, none, Run, done, ◌>>=◌, >>=-eq-done,
  arith, Bool-cases, Option-cases,
}
use labyrinthus.Object.Value.{Object}
use labyrinthus.Address.Binding.{inc_binded}
use labyrinthus.Base.{codes, ◌==◌, ◌&&◌}
use labyrinthus.Object.Access.{assign, object_by_name, dyn_object_by_name, uint_object_by_name}
use labyrinthus.Defines.Table.{structs, nesting, create_rss_object_with_type, response_ok}
use labyrinthus.Defines.Cmd
use labyrinthus.Defines.AddrType
use labyrinthus.Checksum.Crc.{get_crc}
use labyrinthus.Socket.Packet.{get_last_packed_data_as_type}
use labyrinthus.Server.State.{Server, BindedChain}
use labyrinthus.Server.Receiver.{
  bind_chain, answer_request, on_get_chains_response, on_set_chains_response,
  on_device_connect_response, on_get_devices_response, unpack, dispatch,
}
use labyrinthus.Server.Requests.{send_dns_response}
use labyrinthus.Server.Routing.{apply_and_route_rss_packet}
use labyrinthus.Server.Frame.{view, Keeps, apply_and_route-Keeps}
use labyrinthus.Server.Transition.{AnyChain, Moves, stays, binds, enters, moved_on}

pub view-done : {s s' : Server} → done s ≡ done s' → view s' ≡ view s
view-done h = cc

-- A chain that a response binds meets `P`.
abbrev pub BoundFrom : (BindedChain → Type 0) → Object → Type 0
BoundFrom P o =
    (ip addr : Bytes) (addr_o fresh : Object) (kept : Object × Bool)
    → object_by_name o (codes "address") ≡ done addr_o
    → dyn_object_by_name addr_o (codes "address") ≡ done addr
    → create_rss_object_with_type (codes "getChainsResponse") ≡ done fresh
    → assign nesting structs fresh o ≡ done kept
    → P (record {
      binded_addr = ip;
      domain_address_crc = get_crc addr;
      get_chains_response = kept.0;
    })

pub any_chain : (o : Object) → BoundFrom AnyChain o
any_chain o ip addr addr_o fresh kept _ _ _ _ = tt

bind_chain-Moves :
    (P : BindedChain → Type 0) (s : Server) (o addr_o : Object) (addr : Bytes) (s' : Server)
    → BoundFrom P o
    → object_by_name o (codes "address") ≡ done addr_o
    → dyn_object_by_name addr_o (codes "address") ≡ done addr
    → bind_chain s o (get_crc addr) ≡ done s'
    → Moves P s s'
unfolding bind_chain
bind_chain-Moves P s o addr_o addr s' good e₁ e₂ h =
    let (fresh, e₃, h₁) =
      >>=-eq-done (create_rss_object_with_type (codes "getChainsResponse")) _ h in
    let (kept, e₄, h₂) = >>=-eq-done (assign nesting structs fresh o) _ h₁ in
    let bc : BindedChain = record {
      binded_addr = inc_binded s.binded_ip;
      domain_address_crc = get_crc addr;
      get_chains_response = kept.0;
    } in
    binds bc (good (inc_binded s.binded_ip) addr addr_o fresh kept e₁ e₂ e₃ e₄) refl (view-done h₂)

answer_request-Keeps :
    (s : Server) (crc : ℕ) (addr : Object) (ip : Option Bytes)
    → Keeps s (answer_request s crc addr ip)
unfolding answer_request send_dns_response
answer_request-Keeps s crc addr ip = ground arith

on_get_chains_response-Moves :
    (P : BindedChain → Type 0) (s : Server) (o : Object) (s' : Server)
    → BoundFrom P o
    → on_get_chains_response s o ≡ done s'
    → Moves P s s'
unfolding on_get_chains_response
on_get_chains_response-Moves P s o s' good_bc h =
    let (addr_o, e₁, h₁) = >>=-eq-done (object_by_name o (codes "address")) _ h in
    let (addr, e₂, h₂) = >>=-eq-done (dyn_object_by_name addr_o (codes "address")) _ h₁ in
    let (status, _, h₃) = >>=-eq-done (uint_object_by_name o (codes "status")) _ h₂ in
    elim (Bool-cases (status == response_ok)) [
      | inl good ↦
          let (s₁, bound, h₄) = >>=-eq-done (bind_chain s o (get_crc addr)) _ (rw good at h₃) in
          moved_on P s s₁ s' (bind_chain-Moves P s o addr_o addr s₁ good_bc e₁ e₂ bound)
            (view-done h₄ ∙ answer_request-Keeps s₁ (get_crc addr) addr_o (some s₁.binded_ip))
      | inr bad ↦
          stays (view-done (rw bad at h₃) ∙ answer_request-Keeps s (get_crc addr) addr_o none)
    ]

on_set_chains_response-Moves :
    (P : BindedChain → Type 0) (s : Server) (o : Object) (s' : Server)
    → on_set_chains_response s o ≡ done s'
    → Moves P s s'
unfolding on_set_chains_response
on_set_chains_response-Moves P s o s' h =
    let (addr_o, _, h₁) = >>=-eq-done (object_by_name o (codes "address")) _ h in
    let (type, _, h₂) = >>=-eq-done (uint_object_by_name addr_o (codes "type")) _ h₁ in
    elim (Bool-cases (type == AddrType.domain)) [
      | inl good ↦
          let (name, _, h₃) =
            >>=-eq-done (dyn_object_by_name addr_o (codes "address")) _ (rw good at h₂) in
          enters name (view-done h₃)
      | inr bad ↦ stays (view-done (rw bad at h₂))
    ]

on_device_connect_response-Keeps :
    (s : Server) (o : Object) (s' : Server) → on_device_connect_response s o ≡ done s' → Keeps s s'
unfolding on_device_connect_response
on_device_connect_response-Keeps s o s' h = ground arith

on_get_devices_response-Keeps :
    (s : Server) (o : Object) (s' : Server) → on_get_devices_response s o ≡ done s' → Keeps s s'
unfolding on_get_devices_response
on_get_devices_response-Keeps s o s' h = ground arith

unpack-Moves :
    (P : BindedChain → Type 0) (s : Server) (n : Bytes) (handler : Object → Run Server)
    (s' : Server)
    → ((o : Object)
        → get_last_packed_data_as_type s.rsock n ≡ done (some o)
        → handler o ≡ done s'
        → Moves P s s')
    → unpack s n handler ≡ done s'
    → Moves P s s'
unfolding unpack
unpack-Moves P s n handler s' k h =
    let (r, got, h₁) = >>=-eq-done (get_last_packed_data_as_type s.rsock n) _ h in
    elim (Option-cases r) [
      | inl nothing ↦ stays (view-done (rw nothing at h₁))
      | inr (o, e) ↦ k o (got ∙ ap done e) (rw e at h₁)
    ]

packet_handler-Keeps :
    (written : Bytes → Bool) (s : Server) (o : Object) (s' : Server)
    → (apply_and_route_rss_packet written s o >>= λ r. done r.0) ≡ done s'
    → Keeps s s'
packet_handler-Keeps written s o s' h =
    let (r, e, h₁) = >>=-eq-done (apply_and_route_rss_packet written s o) _ h in
    view-done h₁ ∙ apply_and_route-Keeps written s o r e

-- A packet is handled by one of the handlers, or not at all.
pub dispatch-cases :
    (Q : Type 0) (written : Bytes → Bool) (s : Server) (from : Bool) (cmd_id : ℕ) (s' : Server)
    → (unpack s (codes "getChainsResponse") (on_get_chains_response s) ≡ done s' → Q)
    → (unpack s (codes "setChainsResponse") (on_set_chains_response s) ≡ done s' → Q)
    → (unpack s (codes "onDeviceConnectResponse") (on_device_connect_response s) ≡ done s' → Q)
    → (unpack s (codes "getDevicesResponse") (on_get_devices_response s) ≡ done s' → Q)
    → (unpack s
            (codes "data_packet_t")
            (λ o. apply_and_route_rss_packet written s o >>= λ r. done r.0)
          ≡ done s'
        → Q)
    → (done s ≡ done s' → Q)
    → dispatch written s from cmd_id ≡ done s'
    → Q
unfolding dispatch
dispatch-cases Q written s from cmd_id s' c₁ c₂ c₃ c₄ c₅ idle h =
    elim (Bool-cases (from && cmd_id == Cmd.getchains_response)) [
      | inl t₁ ↦ c₁ (rw t₁ at h)
      | inr f₁ ↦ elim (Bool-cases (from && cmd_id == Cmd.setchains_response)) [
        | inl t₂ ↦ c₂ (rw (f₁, t₂) at h)
        | inr f₂ ↦ elim (Bool-cases (from && cmd_id == Cmd.ondeviceconnect_response)) [
          | inl t₃ ↦ c₃ (rw (f₁, f₂, t₃) at h)
          | inr f₃ ↦ elim (Bool-cases (from && cmd_id == Cmd.getdevices_response)) [
            | inl t₄ ↦ c₄ (rw (f₁, f₂, f₃, t₄) at h)
            | inr f₄ ↦ elim (Bool-cases from) [
              | inl t₅ ↦ idle (rw (f₁, f₂, f₃, f₄, t₅) at h)
              | inr f₅ ↦ elim (Bool-cases (cmd_id == Cmd.send_packet)) [
                | inl t₆ ↦ c₅ (rw (f₁, f₂, f₃, f₄, f₅, t₆) at h)
                | inr f₆ ↦ idle (rw (f₁, f₂, f₃, f₄, f₅, f₆) at h)
              ]
            ]
          ]
        ]
      ]
    ]

pub dispatch-Moves :
    (P : BindedChain → Type 0) (written : Bytes → Bool) (s : Server) (from : Bool) (cmd_id : ℕ)
    (s' : Server)
    → ((o : Object)
        → get_last_packed_data_as_type s.rsock (codes "getChainsResponse") ≡ done (some o)
        → BoundFrom P o)
    → dispatch written s from cmd_id ≡ done s'
    → Moves P s s'
dispatch-Moves P written s from cmd_id s' good h =
    dispatch-cases (Moves P s s') written s from cmd_id s'
      (unpack-Moves P s (codes "getChainsResponse") (on_get_chains_response s) s'
        (λ o got. on_get_chains_response-Moves P s o s' (good o got)))
      (unpack-Moves P s (codes "setChainsResponse") (on_set_chains_response s) s'
        (λ o got. on_set_chains_response-Moves P s o s'))
      (unpack-Moves P s (codes "onDeviceConnectResponse") (on_device_connect_response s) s'
        (λ o got e. stays (on_device_connect_response-Keeps s o s' e)))
      (unpack-Moves P s (codes "getDevicesResponse") (on_get_devices_response s) s'
        (λ o got e. stays (on_get_devices_response-Keeps s o s' e)))
      (unpack-Moves P s (codes "data_packet_t")
        (λ o. apply_and_route_rss_packet written s o >>= λ r. done r.0) s'
        (λ o got e. stays (packet_handler-Keeps written s o s' e)))
      (λ e. stays (view-done e)) h

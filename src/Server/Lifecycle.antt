-- ===== src/Server/Lifecycle.antt =====
-- When a client's packets are served (src/apps/RSServerCommunication.cpp).
use labyrinthus.Base.{
  ℕ, ◌≡◌, refl, ap, ◌∙◌, false, List, [], ◌∷◌, ◌++◌, some, done, length, All, get_elem?, set,
  bytes_eq, bytes_eq_refl,
}
use labyrinthus.Object.Access.{object_by_name, dyn_object_by_name, uint_object_by_name}
use labyrinthus.Defines.AddrType
use labyrinthus.Defines.Objects.{address, set_chains_response}
use labyrinthus.Server.State.{Server, ClientObject, registred}
use labyrinthus.Server.Receiver.{register, on_set_chains_response}
use labyrinthus.Server.Clients.{get_client_info_by_id, client_info}

register-append :
    (before after : List ClientObject) (co : ClientObject)
    → All (λ b. bytes_eq b.local_domain co.local_domain ≡ false) before
    → register (before ++ (co ∷ after)) co.local_domain
      ≡ before ++ (record co { client_state = registred } ∷ after)
unfolding register
register-append [] after co h = rw (bytes_eq_refl co.local_domain)
register-append (b ∷ before) after co (other, h) = rw (other, register-append before after co h)

get_elem?-append :
    {A : Type 0} (before after : List A) (a : A)
    → get_elem? (before ++ (a ∷ after)) (length before) ≡ some a
get_elem?-append [] after a = refl
get_elem?-append (b ∷ before) after a = get_elem?-append before after a

set-append :
    {A : Type 0} (before after : List A) (a b : A)
    → set (before ++ (a ∷ after)) (length before) b ≡ before ++ (b ∷ after)
set-append [] after a b = refl
set-append (x ∷ before) after a b = ap (λ xs. x ∷ xs) (set-append before after a b)

-- A setChainsResponse for a domain makes the first client of the domain a registered one, whatever
-- its state was, and no other; getClientInfoById then gives that client, and notes its activity.
pub client_registers :
    (s : Server) (before after : List ClientObject) (co : ClientObject) (status now : ℕ)
    (rands : ℕ → ℕ)
    → s.registred_clients ≡ before ++ (co ∷ after)
    → All (λ b. bytes_eq b.local_domain co.local_domain ≡ false) before
    → (s₁ s₂ : Server) × (on_set_chains_response s
          (set_chains_response status (address AddrType.domain co.local_domain))
        ≡ done s₁)
      × (s₁.registred_clients ≡ before ++ (record co { client_state = registred } ∷ after))
      × (get_client_info_by_id now rands s₁ (length before)
          ≡ done (s₂, some (record co { client_state = registred; last_activity_time = now })))
      × (s₂.registred_clients
          ≡ before ++ (record co { client_state = registred; last_activity_time = now } ∷ after))
unfolding on_set_chains_response object_by_name dyn_object_by_name uint_object_by_name
    get_client_info_by_id client_info
client_registers s before after co status now rands here h =
    let co₁ : ClientObject = record co { client_state = registred } in
    let co₂ : ClientObject = record co { client_state = registred; last_activity_time = now } in
    let s₁ : Server = record s { registred_clients = before ++ (co₁ ∷ after) } in
    let s₂ : Server = record s { registred_clients = before ++ (co₂ ∷ after) } in
    (
      s₁,
      s₂,
      ap (λ cs. done (record s { registred_clients = register cs co.local_domain })) here
          ∙ ap (λ cs. done (record s { registred_clients = cs }))
              (register-append before after co h),
      refl,
      rw (get_client_info_by_id, get_elem?-append before after co₁)
          (ap (λ cs. done (record s { registred_clients = cs }, some co₂))
            (set-append before after co₁ co₂)),
      refl,
    )

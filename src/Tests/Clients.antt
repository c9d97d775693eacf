-- ===== src/Tests/Clients.antt =====
-- A client that registers, and an unused one that is started, at concrete inputs.
use labyrinthus.Base.{◌≡◌, refl, [], ◌∷◌, ◌++◌, some, done, codes}
use labyrinthus.Defines.AddrType
use labyrinthus.Defines.Objects.{address, set_chains_response}
use labyrinthus.Server.State.{Server, ClientObject, registred, wait_response}
use labyrinthus.Server.Receiver.{on_set_chains_response}
use labyrinthus.Server.Clients.{get_client_info_by_id, hex}
use labyrinthus.Server.Lifecycle.{client_registers}
use labyrinthus.Tests.Routes.{client, server}

hex_domain : hex 254 ++ codes ".ll" ≡ codes "fe.ll"
unfolding hex
hex_domain = refl

abbrev waiting_client : ClientObject
waiting_client = record client { client_state = wait_response; local_domain = codes "fe.ll" }

abbrev waiting_server : Server
waiting_server = record server { registred_clients = client ∷ waiting_client ∷ [] }

client_registers_example :
    (s₁ s₂ : Server) × (on_set_chains_response waiting_server
        (set_chains_response 1 (address AddrType.domain (codes "fe.ll")))
      ≡ done s₁)
    × (s₁.registred_clients ≡ client ∷ record waiting_client { client_state = registred } ∷ [])
    × (get_client_info_by_id 9 (λ n. n) s₁ 1
        ≡ done
            (s₂, some (record waiting_client { client_state = registred; last_activity_time = 9 })))
    × (s₂.registred_clients
        ≡ client ∷ record waiting_client { client_state = registred; last_activity_time = 9 } ∷ [])
client_registers_example =
    client_registers waiting_server (client ∷ []) [] waiting_client 1 9 (λ n. n) refl (refl, tt)

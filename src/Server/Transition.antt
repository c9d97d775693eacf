-- ===== src/Server/Transition.antt =====
-- The states of a client, and what a step changes (src/apps/RSServerCommunication.cpp).
use labyrinthus.Object.Value.{Object}
use labyrinthus.Base.{List, set, some, ◌∙◌, get_elem?, ℕ, ◌≡◌, Bytes, [], ◌∷◌, ◌++◌}
use labyrinthus.Address.Binding.{inc_binded}
use labyrinthus.Server.State.{Server, ClientObject, BindedChain, unused, wait_response, registred}
use labyrinthus.Server.Receiver.{register}
use labyrinthus.Server.Frame.{view}

-- What may become of a client: an unused one is started and waits; whatever its state, it can be
-- registered; the use of a registered one is noted.
pub data Transition (co : ClientObject) : ClientObject → Type 0 where
  idle : Transition co co
  starts :
      (name id : Bytes) (os : Object)
      → co.client_state ≡ unused
      → Transition co (record co {
        client_state = wait_response;
        local_domain = co.local_domain ++ name;
        local_unique_identifier = co.local_unique_identifier ++ id;
        chains = os;
      })
  registers : Transition co (record co { client_state = registred })
  noted :
      (now : ℕ)
      → co.client_state ≡ registred
      → Transition co (record co { last_activity_time = now })

abbrev pub Core : Type 0
Core = List BindedChain × Bytes × List ClientObject

-- What a step may change of the chains, the counter and the clients; what is bound meets `P`.
pub data Change (P : BindedChain → Type 0) (c c' : Core) : Type 0 where
  stays : c' ≡ c → Change P c c'
  binds :
      (bc : BindedChain)
      → P bc
      → bc.binded_addr ≡ inc_binded c.1
      → c' ≡ (c.0 ++ (bc ∷ []), inc_binded c.1, c.2)
      → Change P c c'
  enters : (name : Bytes) → c' ≡ (c.0, c.1, register c.2 name) → Change P c c'
  uses :
      (i : ℕ) (co co' : ClientObject)
      → get_elem? c.2 i ≡ some co
      → Transition co co'
      → c' ≡ (c.0, c.1, set c.2 i co')
      → Change P c c'

abbrev pub Moves : (BindedChain → Type 0) → Server → Server → Type 0
Moves P s s' = Change P (view s) (view s')

abbrev pub AnyChain : BindedChain → Type 0
AnyChain bc = Unit {0}

-- A change, and then a step that changes nothing
pub moved_on :
    (P : BindedChain → Type 0) (s s₁ s' : Server) → Moves P s s₁ → view s' ≡ view s₁ → Moves P s s'
moved_on P s s₁ s' (stays e) h = stays (h ∙ e)
moved_on P s s₁ s' (binds bc good ip e) h = binds bc good ip (h ∙ e)
moved_on P s s₁ s' (enters name e) h = enters name (h ∙ e)
moved_on P s s₁ s' (uses i co co' here t e) h = uses i co co' here t (h ∙ e)

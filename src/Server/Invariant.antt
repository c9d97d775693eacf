-- ===== src/Server/Invariant.antt =====
-- The addresses of chains and clients in every state of the device
-- (src/apps/RSServerCommunication.cpp).
use labyrinthus.Server.Transition.{AnyChain, uses, enters, noted, binds, stays, starts, Transition}
use labyrinthus.Server.Uses.{Step-Moves}
use labyrinthus.Address.Ids.{chain_id-binded_after, binded_after-dotted, dotted_inj}
use labyrinthus.Base.{
  bytes_eq, Bool-cases, set, ◌≢◌, ◌==◌, ◌%◌, if◌then◌else◌, ◌<◌, some, get_elem?, ℕ, zero, suc, ◌+◌,
  ◌≡◌, refl, ap, sym, ◌∙◌, inl, inr, Bytes, Bool, true, List, [], ◌∷◌, ◌++◌, done, arith, length,
}
use labyrinthus.Address.Binding.{chain_id, inc_binded, binded_after, client_address}
use labyrinthus.Socket.Packet.{SockAddr}
use mathlib.Core.Path.{subst}
use labyrinthus.Base.{length-append}
use labyrinthus.Object.Value.{nil}
use labyrinthus.Object.Create.{create}
use labyrinthus.Defines.Table.{create_rss_object_with_type, structs}
use labyrinthus.Defines.Objects.{chains}
use labyrinthus.Server.State.{unused, Server, ClientObject, BindedChain}
use labyrinthus.Server.Receiver.{register}
use labyrinthus.Server.Start.{
  allocate_clients, allocate_client_object, main_state, max_clients, new_socket,
}
use labyrinthus.Server.Frame.{view}
use labyrinthus.Server.Transition.{
  Moves, stays, binds, enters, uses, Transition, idle, starts, registers, noted,
}
use labyrinthus.Server.Uses.{Step-Moves}
use labyrinthus.Server.Receiver.{register}
use labyrinthus.Server.Moves.{any_chain, view-done}
use labyrinthus.Server.Steps.{Reach, start, next}

-- The chains have the addresses behind the first one, from the number `k`.
abbrev pub IsNumbered : ℕ → List BindedChain → Type 0
IsNumbered k [] = Unit {0}
IsNumbered k (bc ∷ rest) = (bc.binded_addr ≡ binded_after (suc k)) × IsNumbered (suc k) rest

abbrev pub IsAddressed : ℕ → List Bytes → Type 0
IsAddressed i [] = Unit {0}
IsAddressed i (ip ∷ rest) = (ip ≡ client_address i) × IsAddressed (suc i) rest

abbrev pub addresses_of : List ClientObject → List Bytes
addresses_of [] = []
addresses_of (co ∷ rest) = co.local_addr ∷ addresses_of rest

abbrev pub IsConsistent : List BindedChain × Bytes × List ClientObject → Type 0
IsConsistent (bcs, ip, cs) =
    (ip ≡ binded_after (length bcs))
    × IsNumbered 0 bcs
    × IsAddressed 0 (addresses_of cs)
    × (length (addresses_of cs) ≡ max_clients)

IsNumbered-append :
    (k : ℕ) (bcs : List BindedChain) (bc : BindedChain)
    → IsNumbered k bcs
    → bc.binded_addr ≡ binded_after (suc (k + length bcs))
    → IsNumbered k (bcs ++ (bc ∷ []))
IsNumbered-append k [] bc h e = (e ∙ ap (λ n. binded_after (suc n)) (omega arith), tt)
IsNumbered-append k (b ∷ bcs) bc (here, h) e =
    (here, IsNumbered-append (suc k) bcs bc h (e ∙ ap (λ n. binded_after (suc n)) (omega arith)))

addresses_of-register :
    (cs : List ClientObject) (name : Bytes) → addresses_of (register cs name) ≡ addresses_of cs
unfolding register
addresses_of-register [] name = refl
addresses_of-register (co ∷ cs) name = elim (Bool-cases (bytes_eq co.local_domain name)) [
  | inl same ↦ rw same refl
  | inr other ↦ rw other (ap (λ ips. co.local_addr ∷ ips) (addresses_of-register cs name))
]

transition_addr : (co co' : ClientObject) → Transition co co' → co'.local_addr ≡ co.local_addr
transition_addr co co' idle = refl
transition_addr co co' (starts name id os un) = refl
transition_addr co co' registers = refl
transition_addr co co' (noted now state) = refl

addresses_of-set :
    (cs : List ClientObject) (i : ℕ) (co co' : ClientObject)
    → get_elem? cs i ≡ some co
    → co'.local_addr ≡ co.local_addr
    → addresses_of (set cs i co') ≡ addresses_of cs
addresses_of-set [] i co co' h e = refl
addresses_of-set (c ∷ cs) zero co co' h e = cc
addresses_of-set (c ∷ cs) (suc i) co co' h e =
    ap (λ ips. c.local_addr ∷ ips) (addresses_of-set cs i co co' h e)

Moves-IsConsistent :
    (s s' : Server) → Moves AnyChain s s' → IsConsistent (view s) → IsConsistent (view s')
unfolding binded_after
Moves-IsConsistent s s' (stays keeps) h = subst IsConsistent (sym keeps) h
Moves-IsConsistent s s' (binds bc _ next_ip seen) (ip, numbered, addressed, many) =
    let one_more : suc (length s.binded_chains) ≡ length (s.binded_chains ++ (bc ∷ [])) =
      omega (arith, length-append s.binded_chains (bc ∷ [])) in
    let same : suc (length s.binded_chains) ≡ suc (0 + length s.binded_chains) = omega arith in
    subst IsConsistent (sym seen) (
      ap inc_binded ip ∙ ap binded_after one_more,
      IsNumbered-append 0 s.binded_chains bc numbered
          (next_ip ∙ ap inc_binded ip ∙ ap binded_after same),
      addressed,
      many,
    )
Moves-IsConsistent s s' (enters name seen) (ip, numbered, addressed, many) =
    subst IsConsistent (sym seen) (
      ip,
      numbered,
      rw (addresses_of-register s.registred_clients name) addressed,
      rw (addresses_of-register s.registred_clients name) many,
    )
Moves-IsConsistent s s' (uses i co co' here t seen) (ip, numbered, addressed, many) =
    subst IsConsistent (sym seen) (
      ip,
      numbered,
      rw (addresses_of-set s.registred_clients i co co' here (transition_addr co co' t)) addressed,
      rw (addresses_of-set s.registred_clients i co co' here (transition_addr co co' t)) many,
    )

-- A client as `main` allocates it
abbrev fresh_client : ℕ → ClientObject
fresh_client i = record {
  local_unique_identifier = [];
  local_domain = [];
  chains = chains nil;
  local_addr = client_address i;
  traffic_key = [];
  client_state = unused;
  last_activity_time = 0;
}

pub allocated :
    (n i : ℕ)
    → (cs : List ClientObject) × (allocate_clients n i ≡ done cs)
      × IsAddressed i (addresses_of cs)
      × (length (addresses_of cs) ≡ n)
unfolding allocate_clients allocate_client_object create_rss_object_with_type structs create
    client_address
allocated zero i = ([], refl, tt, refl)
allocated (suc n) i =
    let (cs, e, h, many) = allocated n (suc i) in
    (fresh_client i ∷ cs, rw e, (refl, h), ap suc many)

start-IsConsistent :
    (sin : SockAddr) (slen : ℕ) (buff : Bytes) (s : Server)
    → main_state true sin slen buff ≡ done s
    → IsConsistent (view s)
unfolding main_state new_socket binded_after
start-IsConsistent sin slen buff s h =
    let (cs, e, addressed, many) = allocated max_clients 0 in
    subst IsConsistent (sym (view-done (rw e at h))) (refl, tt, addressed, many)

-- In every state that the program comes to, after any rounds of its three threads in any order,
-- the counter of chain addresses stands behind the first address by the number of the bound
-- chains, each chain has the address that belongs to its place in the list, and the 250 clients
-- have the addresses that belong to theirs.
pub Reach-IsConsistent :
    (written : Bytes → Bool) (s : Server) → Reach written s → IsConsistent (view s)
Reach-IsConsistent written s (start sin slen buff small h) = start-IsConsistent sin slen buff s h
Reach-IsConsistent written s (next {r = r} way st) =
    Moves-IsConsistent r s (Step-Moves AnyChain written r s (λ _ _ _ o _ _. any_chain o) st)
      (Reach-IsConsistent written r way)

numbered_at :
    (k j : ℕ) (bcs : List BindedChain) (bc : BindedChain)
    → IsNumbered k bcs
    → get_elem? bcs j ≡ some bc
    → bc.binded_addr ≡ binded_after (suc (k + j))
numbered_at k j [] bc h e = cc
numbered_at k zero (b ∷ bcs) bc (here, h) e =
    let same : suc k ≡ suc (k + 0) = omega arith in cc (e, here, ap binded_after same)
numbered_at k (suc j) (b ∷ bcs) bc (here, h) e =
    let same : suc (suc k + j) ≡ suc (k + suc j) = omega arith in
    numbered_at (suc k) j bcs bc h e ∙ ap binded_after same

-- In every state that is reached, the chain number `k` has the address number `k + 1` behind the
-- first.
pub Reach-binded_addr :
    (written : Bytes → Bool) (s : Server) (k : ℕ) (bc : BindedChain)
    → Reach written s
    → get_elem? s.binded_chains k ≡ some bc
    → bc.binded_addr ≡ binded_after (k + 1)
Reach-binded_addr written s k bc way here =
    let same : suc (0 + k) ≡ k + 1 = omega arith in
    numbered_at 0 k s.binded_chains bc (Reach-IsConsistent written s way).1 here
    ∙ ap binded_after same

-- In every state that the program comes to, below 2^24 chains, the tunnel reads the address of a
-- chain back as its place in the list, but for each 256th, which is read as a place 256 too large.
pub Reach-chain_id :
    (written : Bytes → Bool) (s : Server) (k : ℕ) (bc : BindedChain)
    → Reach written s
    → get_elem? s.binded_chains k ≡ some bc
    → k + 1 < 16777216
    → chain_id bc.binded_addr ≡ (if (k + 1) % 256 == 0 then k + 256 else k)
Reach-chain_id written s k bc way here small =
    ap chain_id (Reach-binded_addr written s k bc way here) ∙ chain_id-binded_after k small

-- In every state that the program comes to, no two of the first 2^24 - 1 chains have one address.
pub Reach-unique :
    (written : Bytes → Bool) (s : Server) (j k : ℕ) (a b : BindedChain)
    → Reach written s
    → get_elem? s.binded_chains j ≡ some a
    → get_elem? s.binded_chains k ≡ some b
    → j + 1 < 16777216
    → k + 1 < 16777216
    → j ≢ k
    → a.binded_addr ≢ b.binded_addr
Reach-unique written s j k a b way ha hb sj sk other same = other (
    dotted_inj j k sj sk (
      sym (binded_after-dotted (j + 1))
      ∙ sym (Reach-binded_addr written s j a way ha)
      ∙ same
      ∙ Reach-binded_addr written s k b way hb
      ∙ binded_after-dotted (k + 1)))

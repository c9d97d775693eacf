-- ===== src/Server/Standing.antt =====
-- The states of a client over the rounds of the threads (src/apps/RSServerCommunication.cpp).
use labyrinthus.Server.Moves.{any_chain}
use labyrinthus.Base.{
  inr, inl, bytes_eq, Bool-cases, set, ap, Bool, get_elem?, ℕ, zero, suc, ◌≡◌, refl, Bytes, List,
  [], ◌∷◌, ◌∙◌, some,
}
use labyrinthus.Server.State.{Server, ClientObject, registred}
use labyrinthus.Server.Receiver.{register}
use labyrinthus.Server.Transition.{
  AnyChain, Transition, idle, starts, registers, noted, Moves, stays, binds, enters, uses,
}
use labyrinthus.Server.Uses.{Step-Moves}
use labyrinthus.Server.Steps.{Step}

-- The client, registered
abbrev entered : ClientObject → ClientObject
entered co = record co { client_state = registred }

set-Transition :
    (cs : List ClientObject) (i j : ℕ) (co co' c : ClientObject)
    → get_elem? cs i ≡ some co
    → Transition co co'
    → get_elem? cs j ≡ some c
    → (c' : ClientObject) × (get_elem? (set cs i co') j ≡ some c') × Transition c c'
set-Transition [] i j co co' c h t e = cc
set-Transition (d ∷ cs) zero zero co co' c h t e =
    let same : co ≡ c = cc in (co', refl, rw (same) at t)
set-Transition (d ∷ cs) zero (suc j) co co' c h t e = (c, e, idle)
set-Transition (d ∷ cs) (suc i) zero co co' c h t e = (c, e, idle)
set-Transition (d ∷ cs) (suc i) (suc j) co co' c h t e = set-Transition cs i j co co' c h t e

head_same : (d c : ClientObject) (cs : List ClientObject) → get_elem? (d ∷ cs) 0 ≡ some c → d ≡ c
head_same d c cs e = cc

register-Transition :
    (cs : List ClientObject) (name : Bytes) (j : ℕ) (c : ClientObject)
    → get_elem? cs j ≡ some c
    → (c' : ClientObject) × (get_elem? (register cs name) j ≡ some c') × Transition c c'
unfolding register
register-Transition [] name j c e = cc
register-Transition (d ∷ cs) name zero c e = elim (Bool-cases (bytes_eq d.local_domain name)) [
  | inl same ↦ (entered c, rw (same) (ap (λ x. some (entered x)) (head_same d c cs e)), registers)
  | inr other ↦ (c, rw (other) e, idle)
]
register-Transition (d ∷ cs) name (suc j) c e = elim (Bool-cases (bytes_eq d.local_domain name)) [
  | inl same ↦ (c, rw (same) e, idle)
  | inr other ↦ rw (other) (register-Transition cs name j c e)
]

Moves-Transition :
    (s s' : Server) (j : ℕ) (c : ClientObject)
    → Moves AnyChain s s'
    → get_elem? s.registred_clients j ≡ some c
    → (c' : ClientObject) × (get_elem? s'.registred_clients j ≡ some c') × Transition c c'
Moves-Transition s s' j c (stays seen) e = (c, rw (ap (λ v. v.2) seen) e, idle)
Moves-Transition s s' j c (binds bc _ ip seen) e = (c, rw (ap (λ v. v.2) seen) e, idle)
Moves-Transition s s' j c (enters name seen) e =
    let (c', there, t) = register-Transition s.registred_clients name j c e in
    (c', rw (ap (λ v. v.2) seen) there, t)
Moves-Transition s s' j c (uses i co co' here t seen) e =
    let (c', there, t') = set-Transition s.registred_clients i j co co' c here t e in
    (c', rw (ap (λ v. v.2) seen) there, t')

-- A round of a thread moves each client along its state machine: it leaves it as it is, starts it
-- if it was unused, so that it waits for a response, with more behind its domain and its
-- identifier and with other chains, registers it, or notes the activity of a registered one; all
-- else of the client stays as it was.
pub Step-Transition :
    (written : Bytes → Bool) (s s' : Server) (j : ℕ) (c : ClientObject)
    → Step written s s'
    → get_elem? s.registred_clients j ≡ some c
    → (c' : ClientObject) × (get_elem? s'.registred_clients j ≡ some c') × Transition c c'
Step-Transition written s s' j c st e =
    Moves-Transition s s' j c (Step-Moves AnyChain written s s' (λ _ _ _ o _ _. any_chain o) st) e

-- Rounds of the threads, one after another
pub data Rounds (written : Bytes → Bool) (s : Server) : Server → Type 0 where
  none_yet : Rounds written s s
  one_more : {r s' : Server} → Rounds written s r → Step written r s' → Rounds written s s'

-- The client is registered, and is otherwise as it was, but for the time of its last activity.
abbrev pub StaysRegistred : ClientObject → ClientObject → Type 0
StaysRegistred c c' =
    c' ≡ record c { client_state = registred; last_activity_time = c'.last_activity_time }

transition_registred :
    (b c : ClientObject) → b.client_state ≡ registred → Transition b c → StaysRegistred b c
transition_registred b c h idle = ap (λ st. record b { client_state = st }) h
transition_registred b c h (starts name id os un) = cc
transition_registred b c h registers = refl
transition_registred b c h (noted now state) =
    ap (λ st. record b { client_state = st; last_activity_time = now }) h

abbrev noted_at : ℕ → ClientObject → ClientObject
noted_at now co = record co { client_state = registred; last_activity_time = now }

-- Over any rounds of the threads, in any order, a registered client stays registered and keeps its
-- domain, identifier, chains, key and address; only the time of its last activity changes.
pub Rounds-registred :
    (written : Bytes → Bool) (s s' : Server) (j : ℕ) (c : ClientObject)
    → Rounds written s s'
    → get_elem? s.registred_clients j ≡ some c
    → c.client_state ≡ registred
    → (c' : ClientObject) × (get_elem? s'.registred_clients j ≡ some c') × StaysRegistred c c'
Rounds-registred written s s' j c none_yet e h = (c, e, ap (λ st. record c { client_state = st }) h)
Rounds-registred written s s' j c (one_more {r = r} way st) e h =
    let (b, there, kept) = Rounds-registred written s r j c way e h in
    let (c', after, t) = Step-Transition written r s' j b st there in
    (
      c',
      after,
      transition_registred b c' (ap (λ x. x.client_state) kept) t
          ∙ ap (noted_at c'.last_activity_time) kept,
    )

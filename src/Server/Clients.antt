-- ===== src/Server/Clients.antt =====
-- The clients of a device (src/apps/RSServerCommunication.cpp). `rands` are the results of `rand`, in
-- the order of the calls; `%x` is of a number below 255.
use labyrinthus.Base.{
  ℕ, zero, suc, ◌+◌, ◌/◌, ◌%◌, Bytes, [], ◌∷◌, ◌++◌, Option, some, none, Run, done, ◌>>=◌, ltb,
  codes, get_elem?, set, if◌then◌else◌,
}
use labyrinthus.Object.Value.{Object}
use labyrinthus.Object.Access.{set_uint_object_by_name, assign}
use labyrinthus.Defines.Table.{structs, nesting, create_rss_object_with_type}
use labyrinthus.Defines.AddrType
use labyrinthus.Defines.Cmd
use labyrinthus.Defines.Encryption
use labyrinthus.Socket.Packet.{send_to_route_server}
use labyrinthus.Server.State.{Server, ClientObject, registred, wait_response, unused}
use labyrinthus.Server.Edit.{append_dyn, update_object}
use labyrinthus.Server.Onion.{make_and_append_chain}

abbrev hex_digit : ℕ → ℕ
hex_digit d = if ltb d 10 then 48 + d else 87 + d

unfoldable pub hex : ℕ → Bytes
hex n = if ltb n 16 then hex_digit n ∷ [] else hex_digit (n / 16) ∷ hex_digit (n % 16) ∷ []

-- The loop over `local_unique_identifier`, from the call of that number
unfoldable pub random_bytes : (ℕ → ℕ) → ℕ → ℕ → Bytes
random_bytes rands from zero = []
random_bytes rands from (suc n) = rands from % 256 ∷ random_bytes rands (suc from) n

unfoldable pub append_chains : Server → (ℕ → ℕ) → ℕ → ℕ → ClientObject → Run ClientObject
append_chains s rands from zero co = done co
append_chains s rands from (suc n) co =
    make_and_append_chain s co (rands from) (rands (from + 1))
    >>= append_chains s rands (from + 2) n

-- The setChainsRequest of a client
unfoldable pub set_chains_request : ClientObject → Run Object
set_chains_request co = do
  o ← create_rss_object_with_type (codes "setChainsRequest")
  o₁ ←
      update_object o (codes "address")
        (λ a. set_uint_object_by_name a (codes "type") AddrType.domain)
  o₂ ← set_uint_object_by_name o₁ (codes "encryption_method") Encryption.blowfish
  o₃ ← update_object o₂ (codes "address") (λ a. append_dyn a (codes "address") co.local_domain)
  o₄ ← append_dyn o₃ (codes "traffic_key") co.traffic_key
  update_object o₄ (codes "chains") (λ c. assign nesting structs c co.chains >>= λ r. done r.0)

-- What becomes of an unused client
unfoldable pub start_client : Server → (ℕ → ℕ) → ClientObject → Run ClientObject
start_client s rands co =
    let it = 18 + rands 0 % 16 in
    append_chains s rands (2 + it) 5 (record co {
      client_state = wait_response;
      local_domain = co.local_domain ++ (hex (rands 1 % 255) ++ codes ".ll");
      local_unique_identifier = co.local_unique_identifier ++ random_bytes rands 2 it;
    })

unfoldable pub use_client : Server → (ℕ → ℕ) → ℕ → ClientObject → Run Server
use_client s rands ip_ident co = do
  co' ← start_client s rands co
  req ← set_chains_request co'
  sent ← send_to_route_server s.rsock Cmd.setchains_request req
  done (record s { rsock = sent.0; registred_clients = set s.registred_clients ip_ident co' })

unfoldable pub client_info :
    ℕ → (ℕ → ℕ) → Server → ℕ → ClientObject → Run (Server × Option ClientObject)
client_info now rands s ip_ident co =
    let started : Run (Server × Option ClientObject) =
      use_client s rands ip_ident co >>= λ s'. done (s', none) in
    elim co.client_state [
      | registred ↦
          let co' : ClientObject = record co { last_activity_time = now } in
          done (record s { registred_clients = set s.registred_clients ip_ident co' }, some co')
      | unused ↦ elim s.devices [ [] ↦ done (s, none) | d ∷ ds ↦ started ]
      | _ ↦ done (s, none)
    ]

-- `getClientInfoById` at the time `now`; `none` is NULL.
unfoldable pub get_client_info_by_id : ℕ → (ℕ → ℕ) → Server → ℕ → Run (Server × Option ClientObject)
get_client_info_by_id now rands s ip_ident = elim (get_elem? s.registred_clients ip_ident) [
  | none ↦ done (s, none)
  | some co ↦ client_info now rands s ip_ident co
]

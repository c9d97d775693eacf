-- ===== src/Server/Bindings.antt =====
-- The chains that are bound to local addresses (src/apps/RSServerCommunication.cpp).
use labyrinthus.Base.{
  ℕ, List, [], ◌∷◌, Option, some, none, Run, done, ◌>>=◌, ◌==◌, codes, if◌then◌else◌,
}
use labyrinthus.Object.Value.{Object}
use labyrinthus.Object.Access.{dyn_object_by_name, object_by_name, assign, compare}
use labyrinthus.Defines.Table.{structs, nesting, create_rss_object_with_type}
use labyrinthus.Defines.Cmd
use labyrinthus.Checksum.Crc.{get_crc}
use labyrinthus.Socket.Packet.{send_to_route_server}
use labyrinthus.Server.State.{BindedChain, Server}
use labyrinthus.Server.Edit.{update_object}

-- The loop of `getBindedChainByAddress`
unfoldable pub find_binded : List BindedChain → ℕ → Object → Run (Option BindedChain)
find_binded [] crc addr = done none
find_binded (bc ∷ rest) crc addr =
    let later = find_binded rest crc addr in
    let here : Run (Option BindedChain) =
      object_by_name bc.get_chains_response (codes "address") >>= λ a.
      if compare a addr then done (some bc) else later in
    if bc.domain_address_crc == crc then here else later

-- A chain that is not there is asked for.
unfoldable pub get_binded_chain_by_address : Server → Object → Run (Server × Option BindedChain)
get_binded_chain_by_address s addr = do
  address ← dyn_object_by_name addr (codes "address")
  bc ← find_binded s.binded_chains (get_crc address) addr
  let ask : Run (Server × Option BindedChain) = do
    req ← create_rss_object_with_type (codes "getChainsRequest")
    req' ←
        update_object req (codes "address") (λ a. assign nesting structs a addr >>= λ r. done r.0)
    sent ← send_to_route_server s.rsock Cmd.getchains_request req'
    done (record s { rsock = sent.0 }, none)
  elim bc [ none ↦ ask | some c ↦ done (s, some c) ]

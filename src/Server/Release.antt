-- ===== src/Server/Release.antt =====
-- What the program deletes: `freeClientObject` (src/apps/RSServerCommunication.cpp) and
-- `free_dns_requests_t` (src/apps/RSDNSServer.cpp), by the number of blocks.
use labyrinthus.Base.{
  arith, ap, ℕ, ◌+◌, ◌≡◌, codes, Option, some, none, Run, done, ◌>>=◌, >>=-eq-done,
}
use mathlib.Core.Path.{subst}
use labyrinthus.Object.Create.{create}
use labyrinthus.Object.Typed.{IsTyped, Named, Post-done}
use labyrinthus.Object.Typed.Kept.{create-IsTyped}
use labyrinthus.Object.Delete.{delete_object, blocks, delete_object-blocks}
use labyrinthus.Defines.Table.{structs, nesting, create_rss_object_with_type}
use labyrinthus.Dns.Pending.{DnsRequests}
use labyrinthus.Server.State.{ClientObject}
use labyrinthus.Server.Start.{allocate_client_object}

-- Three strings, the chains and the client itself; nothing of a null pointer
unfoldable pub free_client_object : Option ClientObject → Run ℕ
free_client_object none = done 0
free_client_object (some co) = do n ← delete_object co.chains; done (n + 3 + 1)

-- Two strings, the address and the request itself
unfoldable pub free_dns_requests_t : DnsRequests → Run ℕ
free_dns_requests_t new_request = do n ← delete_object new_request.asked; done (n + 2 + 1)

-- A client with chains of typed values is freed whole.
free_client_object-blocks :
    (co : ClientObject)
    → IsTyped structs co.chains
    → free_client_object (some co) ≡ done (blocks co.chains + 4)
unfolding free_client_object
free_client_object-blocks co h =
    rw (delete_object-blocks structs co.chains h) (ap done (omega arith))

-- A request with an address of typed values is freed whole.
pub free_dns_requests_t-blocks :
    (rt : DnsRequests)
    → IsTyped structs rt.asked
    → free_dns_requests_t rt ≡ done (blocks rt.asked + 3)
unfolding free_dns_requests_t
free_dns_requests_t-blocks rt h =
    rw (delete_object-blocks structs rt.asked h) (ap done (omega arith))

-- A client is freed as it was allocated.
pub free-allocate :
    (co : ClientObject)
    → allocate_client_object ≡ done co
    → free_client_object (some co) ≡ done (blocks co.chains + 4)
unfolding allocate_client_object create_rss_object_with_type
free-allocate co h =
    let (os, made, q) = >>=-eq-done (create nesting structs (codes "chains_t")) _ h in
    let typed =
      Post-done (Named structs (codes "chains_t")) (create nesting structs (codes "chains_t")) os
        (create-IsTyped nesting structs (codes "chains_t")) made in
    let same : os ≡ co.chains = cc in
    free_client_object-blocks co (subst (IsTyped structs) same typed.1)

-- ===== src/Server/Chains.antt =====
-- The chains that `make_and_append_chain` makes (src/apps/RSServerCommunication.cpp).
use labyrinthus.Base.{ℕ, ◌+◌, ◌<◌, ◌≡◌, Bytes, Bool, [], ◌∷◌, some, done, arith, length}
use labyrinthus.Base.Words.{int_limit}
use labyrinthus.Object.Value.{Object, Objects, push_back}
use labyrinthus.Object.Create.{create}
use labyrinthus.Object.Access.{
  set_uint_object_by_name, dyn_object_by_name, array_object_by_name, put_value,
}
use labyrinthus.Defines.Table.{structs, create_rss_object_with_type}
use labyrinthus.Defines.AddrType
use labyrinthus.Defines.Encryption
use labyrinthus.Defines.Objects.{address, chains}
use labyrinthus.Server.State.{Server, ClientObject}
use labyrinthus.Server.Edit.{append_dyn}
use labyrinthus.Server.Onion.{make_and_append_chain, random_device}
use labyrinthus.Server.Peeling.{layer, in_addr_lem}
use labyrinthus.Server.Journey.{Travels, chain_loop-Travels}

-- With a known own address and two picked devices, all by IPv4 addresses of four bytes, and a
-- client with a list of chains and an identifier that keeps the chain below 2^31 bytes: a chain is
-- appended to the client's, and a packet with it is forwarded by whichever open device handles it
-- to the second pick, from there to the first, then to this device, where the layer of the
-- client's hash is left.
pub make_and_append_chain-Travels :
    (written : Bytes → Bool) (payload : Bytes) (s : Server) (client : ClientObject) (r₀ r₁ : ℕ)
    (me d₀ d₁ : Bytes) (os : Objects)
    → s.my_address ≡ some (address AddrType.ip4 me)
    → random_device s.devices r₀ ≡ done (address AddrType.ip4 d₀)
    → random_device s.devices r₁ ≡ done (address AddrType.ip4 d₁)
    → length me ≡ 4
    → length d₀ ≡ 4
    → length d₁ ≡ 4
    → client.chains ≡ chains os
    → length client.local_unique_identifier + 74 < int_limit
    → (c : Object) × (make_and_append_chain s client r₀ r₁
        ≡ done (record client { chains = chains (push_back os c) }))
      × Travels written payload c
          (d₁ ∷ d₀ ∷ me ∷ [])
          (layer AddrType.localhash client.local_unique_identifier Encryption.notencrypt [])
unfolding make_and_append_chain create_rss_object_with_type structs create set_uint_object_by_name
    append_dyn dyn_object_by_name array_object_by_name put_value
make_and_append_chain-Travels written payload s client r₀ r₁ me d₀ d₁ os mine pick₀ pick₁ hm h₀ h₁
      had small =
    let (c, e, way) =
      chain_loop-Travels written payload client.local_unique_identifier (me ∷ d₀ ∷ d₁ ∷ [])
        (hm, (h₀, (h₁, tt))) (omega arith) in
    (
      c,
      rw (pick₀, pick₁, in_addr_lem d₁ h₁, in_addr_lem d₀ h₀, mine, in_addr_lem me hm, e, had),
      way,
    )

-- ===== src/Tests/Directory.antt =====
-- The directory of bound chains at concrete inputs.
use labyrinthus.Base.{◌≡◌, refl, [], ◌∷◌, some, none, done, arith, codes, All}
use labyrinthus.Defines.AddrType
use labyrinthus.Defines.Table.{response_ok}
use labyrinthus.Defines.Objects.{address, get_chains_response}
use labyrinthus.Address.Binding.{inc_binded}
use labyrinthus.Checksum.Crc.{get_crc}
use labyrinthus.Server.State.{Server}
use labyrinthus.Server.Peeling.{layer}
use labyrinthus.Server.Receiver.{bind_chain}
use labyrinthus.Server.Directory.{IsIndexed, find_binded-resolve, directory, resolve, bound_addr}
use labyrinthus.Server.Naming.{bind_chain-extend, extend}
use labyrinthus.Tests.Routes.{server, far}

bound-IsIndexed : All IsIndexed server.binded_chains
bound-IsIndexed = (
  record {
    status = 1;
    key = [];
    method = 2;
    type = AddrType.domain;
    name = codes "b.ll";
    chain = layer 1 far 1 [];
    short = omega arith;
    kept = refl;
    indexed = refl;
  },
  tt,
)

bind_chain-extend_example :
    (s' : Server) × (bind_chain server
        (get_chains_response response_ok [] 2
          (address AddrType.domain (codes "c.ll"))
          (layer 1 far 1 []))
        (get_crc (codes "c.ll"))
      ≡ done s')
    × All IsIndexed s'.binded_chains
    × (directory s' (codes "c.ll")
        ≡ extend (directory server) (codes "c.ll") (inc_binded server.binded_ip) (codes "c.ll"))
bind_chain-extend_example =
    bind_chain-extend [] 2 (codes "c.ll") 1 far 1 [] (omega arith) server (codes "c.ll")
      (omega arith) bound-IsIndexed

-- What the directory of the state is
directories :
    (directory server (codes "b.ll") ≡ some (192 ∷ 0 ∷ 0 ∷ 1 ∷ []))
    × (directory server (codes "c.ll") ≡ none)
unfolding directory resolve labyrinthus.Server.Directory.matches
    labyrinthus.Object.Access.object_by_name labyrinthus.Object.Access.compare
directories = (refl, refl)

-- ===== src/Tests/Numbers.antt =====
-- Checksums and addresses at concrete inputs.
use labyrinthus.Base.{ℕ, ◌%◌, ◌/◌, ◌<◌, ◌≡◌, refl, [], ◌∷◌, ◌++◌, some, arith}
use labyrinthus.Checksum.InternetSum.{ip_sum, fold_loop, sum_loop}
use labyrinthus.Checksum.Verify.{ip_sum_verifies}
use labyrinthus.Address.Binding.{binded_after, chain_id}
use labyrinthus.Address.Ids.{chain_id-binded_after}

-- An IPv4 header without its checksum, and one with an odd byte behind it
ip_sum_header :
    ip_sum (
      0x45 ∷ 0 ∷ 0 ∷ 0x73 ∷ 0 ∷ 0 ∷ 0x40 ∷ 0 ∷ 0x40 ∷ 0x11 ∷ 0 ∷ 0 ∷ 0xc0 ∷ 0xa8 ∷ 0 ∷ 1 ∷ 0xc0
      ∷ 0xa8 ∷ 0 ∷ 0xc7 ∷ [])
    ≡ some 0x61b8
unfolding ip_sum fold_loop sum_loop
ip_sum_header = refl

ip_sum_verifies_example :
    (c : ℕ) × (ip_sum ((0x45 ∷ 0 ∷ 0 ∷ 0x73 ∷ []) ++ (0 ∷ 0 ∷ 255 ∷ 7 ∷ 1 ∷ [])) ≡ some c)
    × (c < 65536)
    × (ip_sum ((0x45 ∷ 0 ∷ 0 ∷ 0x73 ∷ []) ++ ((c % 256) ∷ (c / 256) ∷ 255 ∷ 7 ∷ 1 ∷ [])) ≡ some 0)
ip_sum_verifies_example =
    ip_sum_verifies (0x45 ∷ 0 ∷ 0 ∷ 0x73 ∷ []) (255 ∷ 7 ∷ 1 ∷ []) 2 refl (omega arith)
      (omega arith, (omega arith, (omega arith, (omega arith, tt))))
      (omega arith, (omega arith, (omega arith, tt)))

chain_id-binded_after_example : chain_id (binded_after 256) ≡ 511
chain_id-binded_after_example = chain_id-binded_after 255 (omega arith)

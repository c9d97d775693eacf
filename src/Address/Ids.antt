-- ===== src/Address/Ids.antt =====
-- Which chain and which client the tunnel finds for an address (src/apps/RSRouter.cpp,
-- src/apps/RSServerCommunication.cpp).
use labyrinthus.Base.{
  ℕ, zero, suc, ◌+◌, ◌*◌, ◌/◌, ◌%◌, ◌<◌, ◌≡◌, refl, ap, ◌∙◌, Bytes, [], ◌∷◌, arith, ◌==◌,
  if◌then◌else◌,
}
use labyrinthus.Address.Binding.{
  ntohl, inc_loop, inc_binded, binded_after, client_address, chain_id, client_id,
}

-- The address of the number `n`
abbrev pub dotted : ℕ → Bytes
dotted n = (n / 16777216 % 256) ∷ (n / 65536 % 256) ∷ (n / 256 % 256) ∷ (n % 256) ∷ []

-- `inc_binded` counts: on the four bytes of a number it gives those of the next, and starts again
-- behind 255.255.255.255.
pub inc_binded-dotted : (n : ℕ) → inc_binded (dotted n) ≡ dotted (n + 1)
unfolding inc_binded inc_loop
inc_binded-dotted n = ground arith

pub binded_after-dotted : (k : ℕ) → binded_after k ≡ dotted (192 * 16777216 + k)
unfolding binded_after
binded_after-dotted zero = refl
binded_after-dotted (suc k) =
    ap inc_binded (binded_after-dotted k)
    ∙ inc_binded-dotted (192 * 16777216 + k)
    ∙ ap dotted (omega arith)

-- Below 2^24 chains the tunnel reads the address of the chain number k back as k, but for each
-- 256th, whose id is 256 too large.
pub chain_id-binded_after :
    (k : ℕ)
    → k + 1 < 16777216
    → chain_id (binded_after (k + 1)) ≡ (if (k + 1) % 256 == 0 then k + 256 else k)
unfolding chain_id
chain_id-binded_after k h = rw (binded_after-dotted (k + 1)) (ground arith)

-- The tunnel reads the address of each of the 250 clients back as its number.
pub client_id-client_address : (i : ℕ) → i < 250 → client_id (client_address i) ≡ i
unfolding client_id client_address
client_id-client_address i h = omega arith

-- Below 2^24 chains the addresses differ.
pub dotted_inj :
    (j k : ℕ)
    → j + 1 < 16777216
    → k + 1 < 16777216
    → dotted (192 * 16777216 + (j + 1)) ≡ dotted (192 * 16777216 + (k + 1))
    → j ≡ k
dotted_inj j k hj hk e =
    let n : (l : ℕ)
        → l + 1 < 16777216
        → ntohl (dotted (192 * 16777216 + (l + 1))) ≡ 192 * 16777216 + (l + 1) =
      λ l h. omega arith in
    omega (arith, n j hj, n k hk, ap ntohl e)

-- ===== src/Server/Ip4.antt =====
-- The header of an IPv4 packet in memory, ip4_t (src/utils/ip.h), which the router writes and the
-- tunnel's thread reads (src/apps/RSRouter.cpp).
use labyrinthus.Base.{ℕ, ◌+◌, ◌*◌, ◌/◌, ◌%◌, ◌<◌, ◌≡◌, refl, Bytes, [], ◌∷◌, ◌++◌, arith}
use labyrinthus.Base.Words.{le_bytes}
use labyrinthus.Server.Routing.{ip_header}
use labyrinthus.Server.Tunnel.{ip_len_of, ip_src_of, ip_dst_of}

-- The numbers as the machine has them; `ip_len` is in the order of the network.
pub record Ip4 : Type 0 where
  pub ip_hl : ℕ
  pub ip_v : ℕ
  pub ip_tos : ℕ
  pub ip_len : ℕ
  pub ip_id : ℕ
  pub ip_off : ℕ
  pub ip_ttl : ℕ
  pub ip_p : ℕ
  pub ip_sum : ℕ
  pub ip_src : ℕ × ℕ × ℕ × ℕ
  pub ip_dst : ℕ × ℕ × ℕ × ℕ

abbrev four : ℕ × ℕ × ℕ × ℕ → Bytes
four (a, b, c, d) = a ∷ b ∷ c ∷ d ∷ []

-- The bytes of the struct; the header's length is the low half of the first.
unfoldable pub ip4_bytes : Ip4 → Bytes
ip4_bytes ip =
    (ip.ip_hl % 16 + 16 * (ip.ip_v % 16))
    ∷ (ip.ip_tos % 256)
    ∷ (le_bytes 2 ip.ip_len
        ++ le_bytes 2 ip.ip_id
        ++ le_bytes 2 ip.ip_off
        ++ ((ip.ip_ttl % 256) ∷ (ip.ip_p % 256) ∷ le_bytes 2 ip.ip_sum)
        ++ four ip.ip_src
        ++ four ip.ip_dst)

-- `htons`, and `ntohs`
unfoldable pub htons : ℕ → ℕ
htons n = n % 256 * 256 + n / 256 % 256

-- The fields that the router sets
abbrev routed_ip : ℕ → ℕ → ℕ × ℕ × ℕ × ℕ → ℕ × ℕ × ℕ × ℕ → ℕ → Ip4
routed_ip len proto src dst sum = record {
  ip_hl = 5;
  ip_v = 4;
  ip_tos = 0;
  ip_len = htons len;
  ip_id = 0;
  ip_off = 0x0040;
  ip_ttl = 64;
  ip_p = proto;
  ip_sum = sum;
  ip_src = src;
  ip_dst = dst;
}

-- The header that the router writes is the struct in memory with the fields that it sets, if the
-- checksum is below 2^16.
pub ip4_bytes-header :
    (len proto sum : ℕ) (src dst : ℕ × ℕ × ℕ × ℕ)
    → sum < 65536
    → ip4_bytes (routed_ip len proto src dst sum) ≡ ip_header len proto (four src) (four dst) sum
unfolding ip4_bytes htons
ip4_bytes-header len proto sum (a, b, c, d) (e, f, g, h) lt =
    let n = len % 256 * 256 + len / 256 % 256 in
    let low : n % 256 ≡ len / 256 % 256 = omega arith in
    let high : n / 256 % 256 ≡ len % 256 = omega arith in
    let top : sum / 256 % 256 ≡ sum / 256 = omega arith in rw (low, high, top) refl

-- From a struct of fields of a byte's or two bytes' width, behind the four bytes of flags, the
-- tunnel's thread reads the length in the machine's order, and the addresses.
pub ip4_bytes-read :
    (ip : Ip4) (flags : ℕ × ℕ × ℕ × ℕ) (rest : Bytes)
    → let buffer = four flags ++ (ip4_bytes ip ++ rest) in
      (ip_len_of buffer ≡ htons ip.ip_len)
      × (ip_src_of buffer ≡ four ip.ip_src)
      × (ip_dst_of buffer ≡ four ip.ip_dst)
unfolding ip4_bytes htons
ip4_bytes-read ip flags rest = (omega arith, refl, refl)

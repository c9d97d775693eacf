-- ===== src/Address/Binding.antt =====
-- The four bytes of an address, and the operations on them.
use labyrinthus.Base.{ℕ, zero, suc, ◌+◌, ◌*◌, ◌%◌, Bytes, [], ◌∷◌, ◌==◌, get_or, set, if◌then◌else◌}
use labyrinthus.Defines.Table.{users_subnet_major, users_subnet_minor, chains_subnet_major}

-- `ntohl` of four bytes in memory
abbrev pub ntohl : Bytes → ℕ
ntohl ip = get_or ip 0 0 * 16777216 + get_or ip 1 0 * 65536 + get_or ip 2 0 * 256 + get_or ip 3 0

-- The loop of `inc_binded`, at `i` = the first argument - 1
unfoldable pub inc_loop : ℕ → Bytes → Bytes
inc_loop zero ip = ip
inc_loop (suc i) ip =
    let carried = inc_loop i (set ip i 0) in
    if get_or ip i 0 == 255 then carried else set ip i (get_or ip i 0 + 1)

unfoldable pub inc_binded : Bytes → Bytes
inc_binded ip = inc_loop 4 ip

-- `binded_ip` when `main` has set it
abbrev pub first_binded : Bytes
first_binded = chains_subnet_major ∷ 0 ∷ 0 ∷ 0 ∷ []

-- `binded_ip` after that many chains were bound; each takes the address behind the last.
unfoldable pub binded_after : ℕ → Bytes
binded_after zero = first_binded
binded_after (suc n) = inc_binded (binded_after n)

-- `local_addr` of the client number `i`: `inet_addr("0.0.0.1")` with three bytes written over
unfoldable pub client_address : ℕ → Bytes
client_address i =
    set (set (set (0 ∷ 0 ∷ 0 ∷ 1 ∷ []) 0 users_subnet_major) 1 users_subnet_minor) 3 ((i + 1) % 256)

-- `ip[3]--` on a char
abbrev pub dec_last : Bytes → Bytes
dec_last ip = set ip 3 ((get_or ip 3 0 + 255) % 256)

-- The tunnel's `chain_id` and `client_id` for the destination and the source of a packet
unfoldable pub chain_id : Bytes → ℕ
chain_id dst = ntohl (dec_last (set dst 0 0))

unfoldable pub client_id : Bytes → ℕ
client_id src = ntohl (dec_last (set (set src 1 0) 0 0))

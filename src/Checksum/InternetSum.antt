-- ===== src/Checksum/InternetSum.antt =====
-- ip_sum (src/utils/ip.cpp): the Internet checksum over little-endian words. The code counts the
-- bytes in an int: a buffer is of less than 2^31 bytes (the router's of 20). A sum below 2^31 stays
-- below 2^32 with a word more, and is folded below 2^31 again, so that a `long` of any width has it.
use labyrinthus.Base.{
  ℕ, zero, suc, ◌+◌, ◌-◌, ◌*◌, ◌/◌, ◌%◌, Bytes, [], ◌∷◌, Option, some, none, ◌==◌, if◌then◌else◌,
}

-- `(sum & 0xFFFF) + (sum >> 16)`
abbrev pub fold : ℕ → ℕ
fold s = s % 65536 + s / 65536

-- The fold when the bit 0x80000000 is set
abbrev pub reduce : ℕ → ℕ
reduce s = if s / 2147483648 % 2 == 1 then fold s else s

-- The loop over the words, and the byte that is left over
unfoldable pub sum_loop : Bytes → ℕ → ℕ
sum_loop [] sum = sum
sum_loop (a ∷ []) sum = sum + a
sum_loop (a ∷ b ∷ rest) sum = sum_loop rest (reduce (sum + (a + 256 * b)))

-- `while(sum>>16)`, with fuel
unfoldable pub fold_loop : ℕ → ℕ → Option ℕ
fold_loop zero s = none
fold_loop (suc f) s = let rest = fold_loop f (fold s) in if s / 65536 == 0 then some s else rest

-- `(unsigned short)~sum`
abbrev pub complement : Option ℕ → Option ℕ
complement (some s) = some (65535 - s)
complement none = none

-- Three folds bring any 32 bit sum below 2^16.
unfoldable pub ip_sum : Bytes → Option ℕ
ip_sum buf = complement (fold_loop 4 (sum_loop buf 0))

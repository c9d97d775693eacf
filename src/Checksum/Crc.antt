-- ===== src/Checksum/Crc.antt =====
-- get_crc (src/utils/get_crc.cpp) and its copy RSSObject::getCrc (src/objects/rssobject.cpp).
use Prim.Native.Nat.{bit_xor}
use labyrinthus.Base.{
  ltb, take, if◌then◌else◌, ℕ, ◌+◌, ◌%◌, ◌≡◌, Bytes, [], ◌∷◌, true, length, bytes_eq→eq, Bool-cases,
  inl, inr,
}
use labyrinthus.Base.Words.{u32, int_limit}
use labyrinthus.Object.Value.{Object}
use labyrinthus.Object.Encode.{encode}
use labyrinthus.Object.Access.{compare, compare_type}

-- The loop over the bytes, from `result`
unfoldable pub crc_loop : Bytes → ℕ → ℕ
crc_loop [] result = result
crc_loop (b ∷ bs) result = crc_loop bs ((result + b) % u32)

-- The bytes that the loop goes over: the length is an int, and a negative one ends it at once.
abbrev pub counted : Bytes → ℕ → Bytes
counted buf n = if ltb n int_limit then take n buf else []

unfoldable pub get_crc : Bytes → ℕ
get_crc buf = let n = length buf % u32 in bit_xor (crc_loop (counted buf n) n) n

-- `getCrc`
unfoldable pub object_crc : Object → ℕ
object_crc o = let s = encode o in let n = length s % u32 in bit_xor (crc_loop (counted s n) n) n

-- Objects that `compare` takes for equal have one checksum, whichever of the two functions makes it:
-- a search that tests the checksum first misses none.
pub object_crc-compare :
    (a b : Object)
    → compare a b ≡ true
    → (object_crc a ≡ object_crc b) × (object_crc a ≡ get_crc (encode b))
unfolding compare object_crc get_crc
object_crc-compare a b h = elim (Bool-cases (compare_type a b)) [
  | inl same ↦ let e = bytes_eq→eq (encode b) (encode a) (rw same at h) in (rw e, rw e)
  | inr other ↦ absurd (cc (rw other at h))
]

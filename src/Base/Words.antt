-- ===== src/Base/Words.antt =====
-- Machine words as numbers, and their bytes in memory on a little-endian machine.
use labyrinthus.Base.{
  ℕ, zero, suc, ◌+◌, ◌-◌, ◌*◌, ◌/◌, ◌%◌, ◌^◌, ◌≤◌, ◌<◌, ◌≡◌, refl, sym, ap, ◌∙◌, [], ◌∷◌, arith,
  Bytes, length, ltb, if◌then◌else◌,
}

abbrev pub u32 : ℕ
u32 = 2 ^ 32

-- The numbers below it are those of an `int` that is not negative.
abbrev pub int_limit : ℕ
int_limit = 2 ^ 31

-- `a - b` on `unsigned int`.
abbrev pub sub32 : ℕ → ℕ → ℕ
sub32 a b = (a + u32 - b) % u32

-- The first `k` bytes of `n` in memory.
abbrev pub le_bytes : ℕ → ℕ → Bytes
le_bytes zero n = []
le_bytes (suc k) n = (n % 256) ∷ le_bytes k (n / 256)

-- The unsigned number that bytes in memory stand for.
abbrev pub le_value : Bytes → ℕ
le_value [] = 0
le_value (b ∷ bs) = b + 256 * le_value bs

-- `(long)(int)x` for the bit pattern `x` of an `int`, read as an `unsigned long`.
abbrev pub sign_extend32 : ℕ → ℕ
sign_extend32 x = if ltb x (2 ^ 31) then x else x + (2 ^ 64 - 2 ^ 32)

pub length-le_bytes : (k n : ℕ) → length (le_bytes k n) ≡ k
length-le_bytes zero n = refl
length-le_bytes (suc k) n = ap suc (length-le_bytes k (n / 256))

pub le_value-le_bytes4 : (n : ℕ) → le_value (le_bytes 4 n) ≡ n % u32
le_value-le_bytes4 n = omega arith

pub sub32_exact : (a b : ℕ) → b ≤ a → a < int_limit → sub32 a b ≡ a - b
sub32_exact a b h k = omega arith

-- Four bytes hold a number modulo 2^32.
pub le_bytes4-mod : (n : ℕ) → le_bytes 4 (n % u32) ≡ le_bytes 4 n
le_bytes4-mod n = ground arith

sign_extend32-mod : (x : ℕ) → x < u32 → sign_extend32 x % u32 ≡ x
sign_extend32-mod x h = ground arith

-- Widening an int to a long keeps its four low bytes.
pub sign_extend32_bytes : (n : ℕ) → le_bytes 4 (sign_extend32 (n % u32)) ≡ le_bytes 4 n
sign_extend32_bytes n =
    sym (le_bytes4-mod (sign_extend32 (n % u32)))
    ∙ ap (le_bytes 4) (sign_extend32-mod (n % u32) (omega arith))
    ∙ le_bytes4-mod n

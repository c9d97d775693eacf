-- ===== src/Defines/Encryption.antt =====
-- The values of encryption_method_t (src/common/rs_defines.h) that the code uses.
use labyrinthus.Base.{ℕ}

abbrev pub notencrypt : ℕ
notencrypt = 1

abbrev pub blowfish : ℕ
blowfish = 2

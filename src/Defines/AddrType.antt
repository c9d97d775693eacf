-- ===== src/Defines/AddrType.antt =====
-- The values of addr_type_t (src/common/rs_defines.h) that the code uses.
use labyrinthus.Base.{ℕ}

abbrev pub ip4 : ℕ
ip4 = 1

abbrev pub domain : ℕ
domain = 3

abbrev pub localhash : ℕ
localhash = 4

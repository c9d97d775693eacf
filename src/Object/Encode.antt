-- ===== src/Object/Encode.antt =====
-- `encode` (src/objects/rssobject.cpp): the bytes that it appends. The machine is little-endian.
use labyrinthus.Base.{ℕ, Bytes, [], ◌++◌, length}
use labyrinthus.Base.Words.{le_bytes}
use labyrinthus.Object.Value.{
  Scalar, int, word, char, Value, Rows, Objects, Object, scalar, dyn, array, nested, end, row, nil,
  item, object, count,
}

-- `sizeof`
abbrev pub size : Scalar → ℕ
size int = 4
size word = 2
size char = 1

unfoldable mutual
  pub encode : Object → Bytes
  encode (object _ _ _ rs) = encode_rows rs

  pub encode_rows : Rows → Bytes
  encode_rows end = []
  encode_rows (row _ v rs) = encode_value v ++ encode_rows rs

  pub encode_value : Value → Bytes
  encode_value (scalar s n) = le_bytes (size s) n
  encode_value (dyn b) = le_bytes 4 (length b) ++ b
  encode_value (array os) = le_bytes 4 (count os) ++ encode_objects os
  encode_value (nested o) = encode o

  pub encode_objects : Objects → Bytes
  encode_objects nil = []
  encode_objects (item o os) = encode o ++ encode_objects os

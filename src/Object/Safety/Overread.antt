-- ===== src/Object/Safety/Overread.antt =====
-- What the uncounted int leads to (src/objects/rssobject.cpp): a read outside the buffer.
use labyrinthus.Base.{
  ◌-◌, ℕ, suc, ◌≤◌, ◌<◌, ◌≡◌, Bytes, List, fault, arith, length, length-drop, lt→ltb, le→ltb_false,
}
use labyrinthus.Object.Value.{Value, Rows, scalar, dyn, array, row, object, int}
use labyrinthus.Object.Description.{Structs}
use labyrinthus.Object.Parse.{parse, parse_rows, parse_value, parse_scalar, parse_dyn, parse_array}

-- A row that begins with a count of four bytes
abbrev HasCount : Value → Type 0
HasCount (dyn _) = Unit {0}
HasCount (array _) = Unit {0}
HasCount _ = ⊥

-- Into a struct that begins with an int and then a string or an array, parse of any 4 to 7 bytes
-- reads the count behind the end of the buffer: its test of `len` passes, since the int was not
-- counted.
pub parse_overread :
    (f : ℕ) (ss : Structs) (name text : Bytes) (names : List Bytes) (t u : Bytes) (old : ℕ)
    (v : Value) (rs : Rows) (buf : Bytes)
    → HasCount v
    → 4 ≤ length buf
    → length buf < 8
    → parse
        (suc f)
        ss
        (object name text names (row t (scalar int old) (row u v rs)))
        buf
        (length buf)
      ≡ fault
unfolding parse parse_rows parse_value parse_scalar parse_dyn parse_array
parse_overread f ss name text names t u old (dyn b) rs buf c h k = rw (
  le→ltb_false (length buf) 4 h,
  length-drop 4 buf,
  le→ltb_false (length buf) 4 h,
  lt→ltb (length buf - 4) 4 (omega arith),
)
parse_overread f ss name text names t u old (array os) rs buf c h k = rw (
  le→ltb_false (length buf) 4 h,
  length-drop 4 buf,
  le→ltb_false (length buf) 4 h,
  lt→ltb (length buf - 4) 4 (omega arith),
)
parse_overread f ss name text names t u old _ rs buf c h k = absurd c

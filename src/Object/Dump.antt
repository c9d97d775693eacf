-- ===== src/Object/Dump.antt =====
-- `printDump` (src/objects/rssobject.cpp): the text that it prints. The texts of a type and of a name
-- have no null byte, where `%s` would stop.
use labyrinthus.Base.{
  ◌∙◌, sym, ltb, if◌then◌else◌, ◌%◌, ap, ◌+◌, refl, ◌/◌, ◌≡◌, length, codes, ℕ, zero, suc, Bytes,
  List, [], ◌∷◌, ◌++◌, Run, done, fault, ◌>>=◌,
}
use labyrinthus.Object.Value.{
  Value, Rows, Objects, Object, scalar, dyn, array, nested, end, row, nil, item, object,
}

-- The digits of a number below 10 ^ fuel
abbrev digits : ℕ → ℕ → Bytes → Bytes
digits zero n rest = rest
digits (suc fuel) n rest =
    let longer = digits fuel (n / 10) ((48 + n % 10) ∷ rest) in
    if ltb n 10 then (48 + n) ∷ rest else longer

-- `%lu` and `%d`: twenty digits are enough for 64 bits.
unfoldable pub decimal : ℕ → Bytes
decimal n = digits 20 n []

abbrev newline : Bytes
newline = 10 ∷ []

abbrev tab : Bytes
tab = 9 ∷ []

unfoldable mutual
  -- `printDump(withtext)`
  pub print_dump : Bytes → Object → Run Bytes
  print_dump with_text (object _ _ names rs) = dump_rows with_text names rs

  -- The loop over the rows; there is a name for each.
  pub dump_rows : Bytes → List Bytes → Rows → Run Bytes
  dump_rows with_text names end = done []
  dump_rows with_text [] (row t v rs) = fault
  dump_rows with_text (name ∷ names) (row t v rs) = do
    value ← dump_value with_text v
    rest ← dump_rows with_text names rs
    done (tab ++ with_text ++ t ++ codes " " ++ name ++ codes " = " ++ value ++ newline ++ rest)

  pub dump_value : Bytes → Value → Run Bytes
  dump_value with_text (scalar s n) = done (decimal n)
  dump_value with_text (dyn b) = done (codes "DATA[" ++ decimal (length b) ++ codes "]")
  dump_value with_text (array os) = do
    elements ← dump_objects with_text 0 os
    done (codes "Array {" ++ newline ++ elements ++ tab ++ with_text ++ codes " }" ++ newline)
  dump_value with_text (nested o) = do
    inner ← print_dump (tab ++ with_text) o
    done (codes "Object {" ++ newline ++ inner ++ tab ++ with_text ++ codes " }" ++ newline)

  -- The loop over an array, from the number `q`
  pub dump_objects : Bytes → ℕ → Objects → Run Bytes
  dump_objects with_text q nil = done []
  dump_objects with_text q (item o os) = do
    element ← print_dump (tab ++ tab ++ with_text) o
    rest ← dump_objects with_text (suc q) os
    done (
        (tab ++ tab ++ with_text ++ codes "[" ++ decimal q ++ codes "] = {" ++ newline)
        ++ element
        ++ (tab ++ tab ++ with_text ++ codes "}" ++ newline ++ newline)
        ++ rest)

-- The bytes of a string, each replaced by a star
abbrev starred : Bytes → Bytes
starred [] = []
starred (c ∷ b) = 42 ∷ starred b

length-starred : (b : Bytes) → length (starred b) ≡ length b
length-starred [] = refl
length-starred (c ∷ b) = ap suc (length-starred b)

-- The object without what its strings hold
unfoldable mutual
  pub redacted : Object → Object
  redacted (object name text names rs) = object name text names (redacted_rows rs)

  redacted_rows : Rows → Rows
  redacted_rows end = end
  redacted_rows (row t v rs) = row t (redacted_value v) (redacted_rows rs)

  redacted_value : Value → Value
  redacted_value (scalar s n) = scalar s n
  redacted_value (dyn b) = dyn (starred b)
  redacted_value (array os) = array (redacted_objects os)
  redacted_value (nested o) = nested (redacted o)

  redacted_objects : Objects → Objects
  redacted_objects nil = nil
  redacted_objects (item o os) = item (redacted o) (redacted_objects os)

mutual
  unfolding print_dump redacted

  print_dump-redacted :
      (with_text : Bytes) (o : Object) → print_dump with_text (redacted o) ≡ print_dump with_text o
  print_dump-redacted with_text (object name text names rs) = dump_rows-redacted with_text names rs

  dump_rows-redacted :
      (with_text : Bytes) (names : List Bytes) (rs : Rows)
      → dump_rows with_text names (redacted_rows rs) ≡ dump_rows with_text names rs
  dump_rows-redacted with_text names end = refl
  dump_rows-redacted with_text [] (row t v rs) = refl
  dump_rows-redacted with_text (name ∷ names) (row t v rs) =
      rw (dump_value-redacted with_text v, dump_rows-redacted with_text names rs)

  dump_value-redacted :
      (with_text : Bytes) (v : Value)
      → dump_value with_text (redacted_value v) ≡ dump_value with_text v
  dump_value-redacted with_text (scalar s n) = refl
  dump_value-redacted with_text (dyn b) = rw (length-starred b)
  dump_value-redacted with_text (array os) = rw (dump_objects-redacted with_text 0 os)
  dump_value-redacted with_text (nested o) = rw (print_dump-redacted (tab ++ with_text) o)

  dump_objects-redacted :
      (with_text : Bytes) (q : ℕ) (os : Objects)
      → dump_objects with_text q (redacted_objects os) ≡ dump_objects with_text q os
  dump_objects-redacted with_text q nil = refl
  dump_objects-redacted with_text q (item o os) =
      rw (
        print_dump-redacted (tab ++ tab ++ with_text) o,
        dump_objects-redacted with_text (suc q) os,
      )

-- printDump prints of a string nothing but its length: it prints the same of two objects that
-- differ only in what their strings of equal lengths hold.
pub print_dump-same :
    (with_text : Bytes) (o p : Object)
    → redacted o ≡ redacted p
    → print_dump with_text o ≡ print_dump with_text p
print_dump-same with_text o p h =
    sym (print_dump-redacted with_text o)
    ∙ ap (print_dump with_text) h
    ∙ print_dump-redacted with_text p

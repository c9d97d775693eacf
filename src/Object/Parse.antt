-- ===== src/Object/Parse.antt =====
-- `parse` (src/objects/rssobject.cpp). The buffer is the list of the bytes that it really holds;
-- `len` is the code's own count of what is left, which the code does not keep equal to it. A read
-- outside the buffer is a fault. The counts that `parse` returns for nested objects are kept in an
-- int: one of 2^31 or more is negative there, and moves `data` back by 2^32 less the count, which is
-- more than it went on by, as a `len` is below 2^32: to before the buffer, which is a fault. (Only
-- 2^32 - 1 is not added: it would read as -1.)
use labyrinthus.Base.{
  ℕ, zero, suc, ◌+◌, ◌-◌, Bytes, true, false, Run, done, fault, out_of_fuel, ◌>>=◌, require, ◌==◌,
  ltb, length, take, drop, if◌then◌else◌,
}
use labyrinthus.Base.Words.{le_value, sign_extend32, sub32, int_limit}
use labyrinthus.Object.Value.{
  Scalar, int, word, char, Value, Rows, Objects, Object, scalar, dyn, array, nested, end, row,
  object, elem_name, push_back,
}
use labyrinthus.Object.Description.{Structs}
use labyrinthus.Object.Create.{create}
use labyrinthus.Object.Encode.{size}

-- `rejected` is the result -1, with the target as it was left. `parsed` has the target and `skip`.
pub data Parsed (A : Type 0) : Type 0 where
  parsed : A → ℕ → Parsed A
  rejected : A → Parsed A

-- One row: the value, the bytes that `data` went on by, and the new `len`.
pub data Step (A : Type 0) : Type 0 where
  read : A → ℕ → ℕ → Step A
  bad : A → Step A

-- The casts to `long` from int, unsigned short and unsigned char.
abbrev pub widen : Scalar → ℕ → ℕ
widen int x = sign_extend32 x
widen word x = x
widen char x = x

-- The branch of `int` does not count `len` down.
abbrev pub len_after : Scalar → ℕ → ℕ
len_after int len = len
len_after word len = len - 2
len_after char len = len - 1

unfoldable pub parse_scalar : Scalar → ℕ → Bytes → ℕ → Run (Step Value)
parse_scalar s old buf len =
    if ltb len (size s)
    then done (bad (scalar s old))
    else if ltb (length buf) (size s)
    then fault
    else done (read (scalar s (widen s (le_value (take (size s) buf)))) (size s) (len_after s len))

unfoldable pub parse_dyn : Bytes → Bytes → ℕ → Run (Step Value)
parse_dyn old buf len =
    let n = le_value (take 4 buf) in
    if ltb len 4
    then done (bad (dyn old))
    else if ltb (length buf) 4
    then fault
    else if ltb (len - 4) n
    then done (bad (dyn old))
    else if ltb (length buf - 4) n
    then fault
    else done (read (dyn (take n (drop 4 buf))) (4 + n) (len - 4 - n))

-- The loop over `q`, with `left` rounds to go.
unfoldable pub parse_items :
    Run Object
    → (Object → Bytes → ℕ → Run (Parsed Object))
    → ℕ
    → Bytes
    → ℕ
    → ℕ
    → Objects
    → Run (Step Objects)
parse_items new sub zero buf len skip v = done (read v skip len)
parse_items new sub (suc left) buf len skip v = elim (len == 0) [
  | true ↦ done (bad v)
  | false ↦ new >>= λ o. sub o buf len >>= elim [
    | parsed o' ll ↦
        let rest =
          parse_items new sub left (drop ll buf) (sub32 len ll) (skip + ll) (push_back v o') in
        if ltb ll int_limit then rest else fault
    | rejected _ ↦ done (bad v)
  ]
]

abbrev as_array : Step Objects → Step Value
as_array (read v k len) = read (array v) k len
as_array (bad v) = bad (array v)

unfoldable pub parse_array :
    (Bytes → Run Object)
    → (Object → Bytes → ℕ → Run (Parsed Object))
    → Bytes
    → Objects
    → Bytes
    → ℕ
    → Run (Step Value)
parse_array new sub t old buf len =
    let n = le_value (take 4 buf) in
    let items = require (elem_name t) >>= λ e.
    parse_items (new e) sub n (drop 4 buf) (len - 4) 4 old >>= λ s. done (as_array s) in
    if ltb len 4 then done (bad (array old)) else if ltb (length buf) 4 then fault else items

abbrev as_nested : ℕ → Parsed Object → Run (Step Value)
as_nested len (parsed o ll) =
    if ltb ll int_limit then done (read (nested o) ll (sub32 len ll)) else fault
as_nested len (rejected o) = done (bad (nested o))

unfoldable pub parse_value :
    (Bytes → Run Object)
    → (Object → Bytes → ℕ → Run (Parsed Object))
    → Bytes
    → Value
    → Bytes
    → ℕ
    → Run (Step Value)
parse_value new sub t (scalar s old) buf len = parse_scalar s old buf len
parse_value new sub t (dyn old) buf len = parse_dyn old buf len
parse_value new sub t (array old) buf len = parse_array new sub t old buf len
parse_value new sub t (nested o) buf len = sub o buf len >>= as_nested len

abbrev behind_row : Bytes → Value → ℕ → Parsed Rows → Parsed Rows
behind_row t v k (parsed rs skip) = parsed (row t v rs) (k + skip)
behind_row t v k (rejected rs) = rejected (row t v rs)

unfoldable pub parse_rows :
    (Bytes → Run Object)
    → (Object → Bytes → ℕ → Run (Parsed Object))
    → Rows
    → Bytes
    → ℕ
    → Run (Parsed Rows)
parse_rows new sub end buf len = done (parsed end 0)
parse_rows new sub (row t v rs) buf len = parse_value new sub t v buf len >>= elim [
  | read v' k len' ↦ parse_rows new sub rs (drop k buf) len' >>= λ r. done (behind_row t v' k r)
  | bad v' ↦ done (rejected (row t v' rs))
]

abbrev as_object : Object → Parsed Rows → Parsed Object
as_object (object name text names _) (parsed rs skip) = parsed (object name text names rs) skip
as_object (object name text names _) (rejected rs) = rejected (object name text names rs)

-- `parse(data, len)` on the target `o`
unfoldable pub parse : ℕ → Structs → Object → Bytes → ℕ → Run (Parsed Object)
parse zero ss o buf len = out_of_fuel
parse (suc f) ss (object name text names rs) buf len =
    parse_rows (create f ss) (parse f ss) rs buf len >>= λ r.
    done (as_object (object name text names rs) r)

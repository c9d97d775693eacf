-- ===== src/Object/Access.antt =====
-- What the callers use an object by (src/objects/rssobject.cpp): access by name, `copy`, `assign`,
-- `compare`, `compareType`.
use labyrinthus.Base.{
  ℕ, zero, suc, Bytes, Bool, true, false, List, [], ◌∷◌, Option, some, none, Run, done, exited,
  fault, ◌>>=◌, bytes_eq, length, if◌then◌else◌,
}
use labyrinthus.Object.Value.{
  Value, Rows, Objects, Object, scalar, dyn, array, nested, end, row, object, description,
  struct_name,
}
use labyrinthus.Object.Description.{Structs}
use labyrinthus.Object.Create.{create, clear}
use labyrinthus.Object.Encode.{encode}
use labyrinthus.Object.Parse.{parse, parsed, rejected}

-- `getIdentOfObjectByName`: the first row of the name, or the end of the process
unfoldable pub ident_of : List Bytes → Bytes → Run ℕ
ident_of [] name = exited
ident_of (n ∷ ns) name = if bytes_eq n name then done 0 else ident_of ns name >>= λ i. done (suc i)

-- A row by its number; the text may have more names than types.
unfoldable pub value_at : Rows → ℕ → Run Value
value_at end i = fault
value_at (row _ v rs) zero = done v
value_at (row _ v rs) (suc i) = value_at rs i

unfoldable pub set_value_at : Rows → ℕ → Value → Rows
set_value_at end i w = end
set_value_at (row t v rs) zero w = row t w rs
set_value_at (row t v rs) (suc i) w = row t v (set_value_at rs i w)

unfoldable pub value_by_name : Object → Bytes → Run Value
unfolding ident_of value_at
value_by_name (object _ _ names rs) name = ident_of names name >>= value_at rs

-- `objectByName`, `dynObjectByName` and `arrayObjectByName` are one access with three casts. A
-- scalar row ends the process; the wrong cast of another row is undefined.
unfoldable pub object_by_name : Object → Bytes → Run Object
unfolding value_by_name
object_by_name o name =
    value_by_name o name >>= elim [ nested p ↦ done p | scalar _ _ ↦ exited | _ ↦ fault ]

unfoldable pub dyn_object_by_name : Object → Bytes → Run Bytes
unfolding value_by_name
dyn_object_by_name o name =
    value_by_name o name >>= elim [ dyn b ↦ done b | scalar _ _ ↦ exited | _ ↦ fault ]

unfoldable pub array_object_by_name : Object → Bytes → Run Objects
unfolding value_by_name
array_object_by_name o name =
    value_by_name o name >>= elim [ array os ↦ done os | scalar _ _ ↦ exited | _ ↦ fault ]

-- `uintObjectByName` reads a pointer as a number if the row is no scalar: the model has none.
unfoldable pub uint_object_by_name : Object → Bytes → Run ℕ
unfolding value_by_name
uint_object_by_name o name = value_by_name o name >>= elim [ scalar _ n ↦ done n | _ ↦ fault ]

unfoldable pub set_uint_object_by_name : Object → Bytes → ℕ → Run Object
unfolding ident_of value_at set_value_at
set_uint_object_by_name (object sn text names rs) name val = do
  i ← ident_of names name
  v ← value_at rs i
  elim v [
    | scalar s _ ↦ done (object sn text names (set_value_at rs i (scalar s val)))
    | _ ↦ exited
  ]

-- Writing through the pointer that `dynObjectByName` or `objectByName` returned
unfoldable pub put_value : Object → Bytes → Value → Run Object
unfolding ident_of value_at set_value_at
put_value (object sn text names rs) name w = do
  i ← ident_of names name
  v ← value_at rs i
  done (object sn text names (set_value_at rs i w))

unfoldable pub compare_type : Object → Object → Bool
compare_type a b = bytes_eq (description b) (description a)

unfoldable pub compare : Object → Object → Bool
unfolding compare_type encode
compare a b = if compare_type a b then bytes_eq (encode b) (encode a) else false

-- `none` is NULL.
unfoldable pub copy : ℕ → Structs → Object → Run (Option Object)
unfolding create parse encode
copy f ss o = do
  p ← create f ss (struct_name o)
  r ← parse f ss p (encode o) (length (encode o))
  done (elim r [ parsed q _ ↦ some q | rejected _ ↦ none ])

-- `assign`: the object as it is left, and whether `parse` took all
unfoldable pub assign : ℕ → Structs → Object → Object → Run (Object × Bool)
unfolding compare_type clear parse encode
assign f ss o from =
    let assigned : Run (Object × Bool) = clear f ss o >>= λ p.
    parse f ss p (encode from) (length (encode from)) >>= λ r.
    done (elim r [ parsed q _ ↦ (q, true) | rejected q ↦ (q, false) ]) in
    if compare_type o from then assigned else exited

-- ===== src/Object/RowAccess.antt =====
-- The access to an object's rows by their numbers (src/objects/rssobject.cpp). Outside the vectors it
-- is undefined.
use labyrinthus.Base.{
  ℕ, zero, suc, ◌<◌, ◌≡◌, refl, Bytes, List, [], ◌∷◌, some, none, Run, done, fault, length,
  get_elem?, arith,
}
use labyrinthus.Object.Value.{Value, Rows, Object, end, row, object, types_of, struct_name}
use labyrinthus.Object.Description.{Structs}
use labyrinthus.Object.Typed.{IsTyped, RowsTyped, ValueTyped}

-- `operator[]` of a vector
abbrev at : {A : Type 0} → List A → ℕ → Run A
at xs i = elim (get_elem? xs i) [ some x ↦ done x | none ↦ fault ]

abbrev values_of : Rows → List Value
values_of end = []
values_of (row t v rs) = v ∷ values_of rs

unfoldable pub get_struct_rows : Object → ℕ
get_struct_rows (object _ _ _ rs) = length (types_of rs)

unfoldable pub get_struct_row_name_by_id : Object → ℕ → Run Bytes
get_struct_row_name_by_id (object _ _ names _) ident = at names ident

unfoldable pub get_struct_row_type_by_id : Object → ℕ → Run Bytes
get_struct_row_type_by_id (object _ _ _ rs) ident = at (types_of rs) ident

unfoldable pub get_struct_row_value_by_id : Object → ℕ → Run Value
get_struct_row_value_by_id (object _ _ _ rs) ident = at (values_of rs) ident

unfoldable pub get_struct_name : Object → Bytes
get_struct_name o = struct_name o

row_typed :
    (ss : Structs) (rs : Rows) (i : ℕ)
    → RowsTyped ss rs
    → i < length (types_of rs)
    → (t : Bytes) × (v : Value) × (at (types_of rs) i ≡ done t)
      × (at (values_of rs) i ≡ done v)
      × ValueTyped ss t v
unfolding IsTyped
row_typed ss end i h lt = absurd (omega arith)
row_typed ss (row t v rs) zero (hv, h) lt = (t, v, refl, refl, hv)
row_typed ss (row t v rs) (suc i) (hv, h) lt = row_typed ss rs i h (omega arith)

-- Below getStructRows the type and the value of a row are there, and the value has the form that the
-- type names, so that a caller may cast it by its type, as printDump does.
pub row_by_id-ValueTyped :
    (ss : Structs) (o : Object) (ident : ℕ)
    → IsTyped ss o
    → ident < get_struct_rows o
    → (t : Bytes) × (v : Value) × (get_struct_row_type_by_id o ident ≡ done t)
      × (get_struct_row_value_by_id o ident ≡ done v)
      × ValueTyped ss t v
unfolding IsTyped get_struct_rows get_struct_row_type_by_id get_struct_row_value_by_id
row_by_id-ValueTyped ss (object name text names rs) ident (_, _, h) lt = row_typed ss rs ident h lt

-- ===== src/Object/Delete.antt =====
-- The destructor of an RSSObject (src/objects/rssobject.cpp), by the number of blocks that it deletes.
use labyrinthus.Base.{
  Bytes, ℕ, ◌+◌, ◌≡◌, refl, ap, Run, done, fault, ◌>>=◌, length, ◌==◌, if◌then◌else◌, arith,
}
use labyrinthus.Object.Value.{
  Value, Kind, Rows, Objects, Object, scalar, dyn, array, nested, end, row, nil, item, object,
  kind_of, types_of,
}
use labyrinthus.Object.Description.{Structs}
use labyrinthus.Object.Create.{create}
use labyrinthus.Object.Parse.{Parsed, parsed, rejected, parse}
use labyrinthus.Object.Typed.Kept.{create-IsTyped, parse-IsTyped}
use labyrinthus.Object.Value.{struct_name}
use labyrinthus.Object.Typed.{Named, Target, Post-done, IsTyped, RowsTyped, ItemsTyped}

unfoldable mutual
  -- `delete` of an object: its values, its type texts, its names, the four strings that name types,
  -- and the object itself
  pub delete_object : Object → Run ℕ
  delete_object (object _ _ names rs) = do
    n ← free_rows rs
    done (n + length (types_of rs) + length names + 4 + 1)

  -- The loop over `free_by_id`
  pub free_rows : Rows → Run ℕ
  free_rows end = done 0
  free_rows (row t v rs) = do n ← free_value (kind_of t) v; m ← free_rows rs; done (n + m)

  -- `free_by_id`. A number that is 0 is a null pointer. Deleting a value as what it is not is
  -- undefined; a pointer that is taken for a number is dropped.
  pub free_value : Kind → Value → Run ℕ
  free_value k (scalar s n) = if n == 0 then done 0 else elim k [
    | Kind.scalar _ ↦ done 0
    | Kind.dyn ↦ fault
    | Kind.array ↦ fault
    | Kind.nested ↦ fault
  ]
  free_value k (dyn b) = elim k [
    | Kind.scalar _ ↦ done 0
    | Kind.dyn ↦ done 1
    | Kind.array ↦ fault
    | Kind.nested ↦ fault
  ]
  free_value k (array os) = elim k [
    | Kind.scalar _ ↦ done 0
    | Kind.dyn ↦ fault
    | Kind.array ↦ free_objects os >>= λ n. done (n + 1)
    | Kind.nested ↦ fault
  ]
  free_value k (nested o) = elim k [
    | Kind.scalar _ ↦ done 0
    | Kind.dyn ↦ fault
    | Kind.array ↦ fault
    | Kind.nested ↦ delete_object o
  ]

  pub free_objects : Objects → Run ℕ
  free_objects nil = done 0
  free_objects (item o os) = do n ← delete_object o; m ← free_objects os; done (n + m)

-- The blocks that belong to an object
unfoldable mutual
  pub blocks : Object → ℕ
  blocks (object _ _ names rs) = row_blocks rs + length (types_of rs) + length names + 5

  pub row_blocks : Rows → ℕ
  row_blocks end = 0
  row_blocks (row t v rs) = value_blocks v + row_blocks rs

  pub value_blocks : Value → ℕ
  value_blocks (scalar s n) = 0
  value_blocks (dyn b) = 1
  value_blocks (array os) = item_blocks os + 1
  value_blocks (nested o) = blocks o

  pub item_blocks : Objects → ℕ
  item_blocks nil = 0
  item_blocks (item o os) = blocks o + item_blocks os

mutual
  unfolding delete_object blocks IsTyped

  -- An object whose values have the forms that its types name is deleted whole: each of its blocks
  -- once, and nothing as what it is not.
  pub delete_object-blocks :
      (ss : Structs) (o : Object) → IsTyped ss o → delete_object o ≡ done (blocks o)
  delete_object-blocks ss (object name text names rs) (_, _, h) =
      rw (free_rows-blocks ss rs h) (ap done (omega arith))

  free_rows-blocks :
      (ss : Structs) (rs : Rows) → RowsTyped ss rs → free_rows rs ≡ done (row_blocks rs)
  free_rows-blocks ss end h = refl
  free_rows-blocks ss (row t (scalar s n) rs) (e, h) =
      rw (e, free_rows-blocks ss rs h) (ground arith)
  free_rows-blocks ss (row t (dyn b) rs) (e, h) = rw (e, free_rows-blocks ss rs h)
  free_rows-blocks ss (row t (array os) rs) ((e, hs), h) =
      rw (e, free_objects-blocks ss t os hs, free_rows-blocks ss rs h)
  free_rows-blocks ss (row t (nested o) rs) ((e, _, typed), h) =
      rw (e, delete_object-blocks ss o typed, free_rows-blocks ss rs h)

  free_objects-blocks :
      (ss : Structs) (t : Bytes) (os : Objects)
      → ItemsTyped ss t os
      → free_objects os ≡ done (item_blocks os)
  free_objects-blocks ss t nil h = refl
  free_objects-blocks ss t (item o os) (_, typed, h) =
      rw (delete_object-blocks ss o typed, free_objects-blocks ss t os h)

abbrev pub left_in : Parsed Object → Object
left_in (parsed o k) = o
left_in (rejected o) = o

left-IsTyped :
    (ss : Structs) (n : Bytes) (len : ℕ) (r : Parsed Object)
    → Target (Named ss n) len r
    → IsTyped ss (left_in r)
left-IsTyped ss n len (parsed o k) h = h.0.1
left-IsTyped ss n len (rejected o) h = h.1

-- Whatever bytes are parsed into a new object, and whether they are accepted or refused halfway,
-- the destructor then ends, having deleted as many blocks as the object has, and none as what it
-- is not.
pub delete_object-parse :
    (f : ℕ) (ss : Structs) (n : Bytes) (o : Object) (buf : Bytes) (len : ℕ) (r : Parsed Object)
    → create f ss n ≡ done o
    → parse f ss o buf len ≡ done r
    → delete_object (left_in r) ≡ done (blocks (left_in r))
delete_object-parse f ss n o buf len r made e =
    let (named, typed) = Post-done (Named ss n) (create f ss n) o (create-IsTyped f ss n) made in
    let kept =
      Post-done (Target (Named ss (struct_name o)) (length buf)) (parse f ss o buf len) r
        (parse-IsTyped f ss o buf len typed) e in
    delete_object-blocks ss (left_in r) (left-IsTyped ss (struct_name o) (length buf) r kept)

-- ===== src/Object/Shape.antt =====
-- When the values of an RSSObject are of the types that its description names, and the object as
-- its bytes stand for it.
use labyrinthus.Base.{ℕ, suc, ◌%◌, ◌^◌, ◌*◌, ◌<◌, max, ◌≡◌, Bytes, [], some, length}
use labyrinthus.Base.Words.{int_limit}
use labyrinthus.Object.Value.{
  Kind, Value, Rows, Objects, Object, scalar, dyn, array, nested, end, row, nil, item, object,
  kind_of, elem_name, struct_name, types_of, count,
}
use labyrinthus.Object.Description.{Structs, find_description, split_description}
use labyrinthus.Object.Encode.{size, encode}
use labyrinthus.Object.Parse.{widen}

-- The rows are those of the struct's entry in the table; each value has the form that its row's
-- type text names; a string and an array have a length below 2^31; an array's elements are
-- objects of its element type, and none of them is encoded by no bytes.
unfoldable mutual
  pub IsSound : Structs → Object → Type 0
  IsSound ss (object name text names rs) =
      (find_description ss name ≡ some text)
      × (split_description text ≡ some (record { types = types_of rs; names = names }))
      × RowsSound ss rs

  pub RowsSound : Structs → Rows → Type 0
  RowsSound ss end = Unit {0}
  RowsSound ss (row t v rs) = ValueSound ss t v × RowsSound ss rs

  pub ValueSound : Structs → Bytes → Value → Type 0
  ValueSound ss t (scalar s n) = kind_of t ≡ Kind.scalar s
  ValueSound ss t (dyn b) = (kind_of t ≡ Kind.dyn) × (length b < int_limit)
  ValueSound ss t (array os) =
      (kind_of t ≡ Kind.array)
      × (count os < int_limit)
      × ((e : Bytes) × (elem_name t ≡ some e) × ItemsSound ss e os)
  ValueSound ss t (nested o) = (kind_of t ≡ Kind.nested) × (struct_name o ≡ t) × IsSound ss o

  pub ItemsSound : Structs → Bytes → Objects → Type 0
  ItemsSound ss e nil = Unit {0}
  ItemsSound ss e (item o os) =
      (struct_name o ≡ e) × (0 < length (encode o)) × IsSound ss o × ItemsSound ss e os

-- The object as it was allocated
unfoldable mutual
  pub blank : Object → Object
  blank (object name text names rs) = object name text names (blank_rows rs)

  pub blank_rows : Rows → Rows
  blank_rows end = end
  blank_rows (row t v rs) = row t (blank_value v) (blank_rows rs)

  pub blank_value : Value → Value
  blank_value (scalar s n) = scalar s 0
  blank_value (dyn b) = dyn []
  blank_value (array os) = array nil
  blank_value (nested o) = nested (blank o)

-- The object with each scalar cut to the width that goes over the wire
unfoldable mutual
  pub normalize : Object → Object
  normalize (object name text names rs) = object name text names (normalize_rows rs)

  pub normalize_rows : Rows → Rows
  normalize_rows end = end
  normalize_rows (row t v rs) = row t (normalize_value v) (normalize_rows rs)

  pub normalize_value : Value → Value
  normalize_value (scalar s n) = scalar s (widen s (n % 2 ^ (8 * size s)))
  normalize_value (dyn b) = dyn b
  normalize_value (array os) = array (normalize_objects os)
  normalize_value (nested o) = nested (normalize o)

  pub normalize_objects : Objects → Objects
  normalize_objects nil = nil
  normalize_objects (item o os) = item (normalize o) (normalize_objects os)

-- The depth of nesting, an array's elements included
unfoldable mutual
  pub depth : Object → ℕ
  depth (object _ _ _ rs) = suc (depth_rows rs)

  pub depth_rows : Rows → ℕ
  depth_rows end = 0
  depth_rows (row _ v rs) = max (depth_value v) (depth_rows rs)

  pub depth_value : Value → ℕ
  depth_value (scalar _ _) = 0
  depth_value (dyn _) = 0
  depth_value (array os) = depth_objects os
  depth_value (nested o) = depth o

  pub depth_objects : Objects → ℕ
  depth_objects nil = 0
  depth_objects (item o os) = max (depth o) (depth_objects os)

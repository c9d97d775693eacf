-- ===== src/Object/Value.antt =====
-- The data of an RSSObject (src/objects/rssobject.h). A value carries the form that the code casts
-- its `void*` to; `Shape` states that this form is always the one that the row's type text names.
use labyrinthus.Base.{
  ℕ, suc, ◌-◌, ◌||◌, Bool, false, List, [], ◌∷◌, Bytes, Option, some, none, bytes_eq, codes, ◌==◌,
  ltb, length, take, if◌then◌else◌,
}

-- The three types that are kept in the pointer itself.
pub data Scalar : Type 0 where
  int word char : Scalar

-- `struct_types` and `struct_values` have one length: they are the rows, a type text and a value.
-- `object structname struct_description struct_names rows`.
mutual
  pub data Value : Type 0 where
    scalar : Scalar → ℕ → Value
    dyn : Bytes → Value
    array : Objects → Value
    nested : Object → Value

  pub data Rows : Type 0 where
    end : Rows
    row : Bytes → Value → Rows → Rows

  pub data Objects : Type 0 where
    nil : Objects
    item : Object → Objects → Objects

  pub data Object : Type 0 where
    object : Bytes → Bytes → List Bytes → Rows → Object

-- What the code's tests on a type text tell apart.
pub data Kind : Type 0 where
  scalar : Scalar → Kind
  dyn array nested : Kind

-- `index(type, '[')`
abbrev pub has_bracket : Bytes → Bool
has_bracket [] = false
has_bracket (c ∷ s) = c == b'[' || has_bracket s

-- The chain of tests on a type text that `encode`, `parse`, `allocate_by_id` and `free_by_id` make.
unfoldable pub kind_of : Bytes → Kind
kind_of t =
    if bytes_eq t (codes "int")
    then Kind.scalar int
    else if bytes_eq t (codes "word")
    then Kind.scalar word
    else if bytes_eq t (codes "char")
    then Kind.scalar char
    else if bytes_eq t (codes "dyn")
    then Kind.dyn
    else if has_bracket t
    then Kind.array
    else Kind.nested

-- `s->append(type, type.length() - 2)`: on a shorter text the length wraps, and `append` throws.
unfoldable pub elem_name : Bytes → Option Bytes
elem_name t = if ltb (length t) 2 then none else some (take (length t - 2) t)

abbrev pub struct_name : Object → Bytes
struct_name (object n _ _ _) = n

abbrev pub description : Object → Bytes
description (object _ d _ _) = d

abbrev pub struct_names : Object → List Bytes
struct_names (object _ _ ns _) = ns

abbrev pub rows : Object → Rows
rows (object _ _ _ rs) = rs

abbrev pub types_of : Rows → List Bytes
types_of end = []
types_of (row t _ rs) = t ∷ types_of rs

abbrev pub count : Objects → ℕ
count nil = 0
count (item _ os) = suc (count os)

-- `v->push_back(o)`
abbrev pub push_back : Objects → Object → Objects
push_back nil o = item o nil
push_back (item a os) o = item a (push_back os o)

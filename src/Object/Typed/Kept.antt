-- ===== src/Object/Typed/Kept.antt =====
-- The constructor, `clear` and `parse` keep the class invariant (src/objects/rssobject.cpp).
use labyrinthus.Base.{ℕ, zero, suc, refl, Bytes, inl, inr, Option-cases, length}
use labyrinthus.Object.Value.{Object, object, struct_name, types_of}
use labyrinthus.Object.Description.{Structs, find_description, split_description}
use labyrinthus.Object.Create.{create, clear, allocate_rows}
use labyrinthus.Object.Parse.{parse, parsed, rejected, parse_rows}
use labyrinthus.Object.Typed.{IsTyped, Post, Post-bind, Target, Named, Listed}
use labyrinthus.Object.Typed.Fields.{allocate_rows-RowsTyped, parse_rows-RowsTyped}

-- Whatever fuel and table, an object that the constructor returns is of the struct that was asked
-- for, and its values have the forms that its type texts name.
pub create-IsTyped : (f : ℕ) (ss : Structs) (n : Bytes) → Post (Named ss n) (create f ss n)
unfolding create
create-IsTyped zero ss n = tt
create-IsTyped (suc f) ss n = elim (Option-cases (find_description ss n)) [
  | inl e ↦ rw e tt
  | inr (text, found) ↦ rw found (elim (Option-cases (split_description text)) [
    | inl e ↦ rw e tt
    | inr (l, split) ↦ rw split (
        Post-bind (Listed ss l.types) (Named ss n) (allocate_rows (create f ss) l.types) _
          (allocate_rows-RowsTyped ss (create f ss) (create-IsTyped f ss) l.types)
          λ rs h. (refl, unfold IsTyped in (found, rw h.0 split, h.1)))
  ])
]

-- `clear` keeps the struct and the forms.
pub clear-IsTyped :
    (f : ℕ) (ss : Structs) (o : Object)
    → IsTyped ss o
    → Post (Named ss (struct_name o)) (clear f ss o)
unfolding clear IsTyped
clear-IsTyped f ss (object name text names rs) (found, split, h) =
    Post-bind (Listed ss (types_of rs)) (Named ss name) (allocate_rows (create f ss) (types_of rs))
      _ (allocate_rows-RowsTyped ss (create f ss) (create-IsTyped f ss) (types_of rs))
      λ rs' g. (refl, (found, rw g.0 split, g.1))

-- If `parse` returns at all, it leaves its target with values of the forms that its type texts name,
-- on success and on the result -1 alike. Defines/Bounds says for which structs it returns.
pub parse-IsTyped :
    (f : ℕ) (ss : Structs) (o : Object) (buf : Bytes) (len : ℕ)
    → IsTyped ss o
    → Post (Target (Named ss (struct_name o)) (length buf)) (parse f ss o buf len)
unfolding parse IsTyped
parse-IsTyped zero ss o buf len h = tt
parse-IsTyped (suc f) ss (object name text names rs) buf len (found, split, h) =
    Post-bind (Target (Listed ss (types_of rs)) (length buf)) (Target (Named ss name) (length buf))
      (parse_rows (create f ss) (parse f ss) rs buf len) _
      (parse_rows-RowsTyped ss (create f ss) (parse f ss) (create-IsTyped f ss) (parse-IsTyped f ss)
        rs buf len h)
      (elim [
        | parsed rs' k ↦ λ g. ((refl, (found, rw g.0.0 split, g.0.1)), g.1)
        | rejected rs' ↦ λ g. (refl, (found, rw g.0 split, g.1))
      ])

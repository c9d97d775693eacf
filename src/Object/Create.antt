-- ===== src/Object/Create.antt =====
-- Allocation: the constructor, `allocate_by_id`, `clear` (src/objects/rssobject.cpp). A struct that
-- nests itself makes the constructor recur for ever; the fuel is the depth of nesting.
use labyrinthus.Base.{ℕ, zero, suc, Bytes, List, [], ◌∷◌, Run, done, out_of_fuel, ◌>>=◌, require}
use labyrinthus.Object.Value.{
  Object, Rows, Value, Kind, scalar, dyn, array, nested, end, row, nil, object, kind_of, types_of,
}
use labyrinthus.Object.Description.{Structs, find_description, split_description}

-- `allocate_by_id`, with the constructor for a nested object
unfoldable pub allocate : (Bytes → Run Object) → Bytes → Run Value
unfolding kind_of
allocate new t = elim (kind_of t) [
  | Kind.scalar s ↦ done (scalar s 0)
  | Kind.dyn ↦ done (dyn [])
  | Kind.array ↦ done (array nil)
  | Kind.nested ↦ new t >>= λ o. done (nested o)
]

unfoldable pub allocate_rows : (Bytes → Run Object) → List Bytes → Run Rows
unfolding allocate
allocate_rows new [] = done end
allocate_rows new (t ∷ ts) = do v ← allocate new t; rs ← allocate_rows new ts; done (row t v rs)

-- `new RSSObject(structs, structname)`
unfoldable pub create : ℕ → Structs → Bytes → Run Object
unfolding allocate_rows find_description split_description
create zero ss name = out_of_fuel
create (suc f) ss name = do
  text ← require (find_description ss name)
  l ← require (split_description text)
  rs ← allocate_rows (create f ss) l.types
  done (object name text l.names rs)

-- `clear`: every row is freed and allocated again.
unfoldable pub clear : ℕ → Structs → Object → Run Object
unfolding create
clear f ss (object name text names rs) = do
  rs' ← allocate_rows (create f ss) (types_of rs)
  done (object name text names rs')

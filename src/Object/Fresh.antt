-- ===== src/Object/Fresh.antt =====
-- What the constructor and `clear` leave (src/objects/rssobject.cpp).
use labyrinthus.Base.{ℕ, zero, suc, ◌≤◌, ◌≡◌, refl, ap, Bytes, ◌∷◌, done, arith}
use labyrinthus.Object.Value.{
  Value, Rows, Object, scalar, dyn, array, nested, end, row, object, struct_name, types_of,
}
use labyrinthus.Object.Description.{Structs}
use labyrinthus.Object.Create.{create, clear, allocate, allocate_rows}
use labyrinthus.Object.Shape.{
  IsSound, RowsSound, ValueSound, blank, blank_rows, blank_value, depth, depth_rows, depth_value,
}

pub types_of-blank_rows : (rs : Rows) → types_of (blank_rows rs) ≡ types_of rs
unfolding blank
types_of-blank_rows end = refl
types_of-blank_rows (row t v rs) = ap (λ ts. t ∷ ts) (types_of-blank_rows rs)

mutual
  unfolding create blank IsSound depth

  pub create-blank :
      (f : ℕ) (ss : Structs) (o : Object)
      → IsSound ss o
      → depth o ≤ f
      → create f ss (struct_name o) ≡ done (blank o)
  create-blank zero ss (object name text names rs) s h = absurd (omega arith)
  create-blank (suc f) ss (object name text names rs) (found, split, s) h =
      rw (found, split, allocate_rows-blank f ss rs s (omega arith))

  allocate_rows-blank :
      (f : ℕ) (ss : Structs) (rs : Rows)
      → RowsSound ss rs
      → depth_rows rs ≤ f
      → allocate_rows (create f ss) (types_of rs) ≡ done (blank_rows rs)
  allocate_rows-blank f ss end s h = refl
  allocate_rows-blank f ss (row t v rs) (sv, s) h =
      rw (allocate-blank f ss t v sv (omega arith), allocate_rows-blank f ss rs s (omega arith))

  allocate-blank :
      (f : ℕ) (ss : Structs) (t : Bytes) (v : Value)
      → ValueSound ss t v
      → depth_value v ≤ f
      → allocate (create f ss) t ≡ done (blank_value v)
  allocate-blank f ss t (scalar s n) k h = rw (k, allocate)
  allocate-blank f ss t (dyn b) s h = rw (s.0, allocate)
  allocate-blank f ss t (array os) s h = rw (s.0, allocate)
  allocate-blank f ss t (nested o) s h = rw (s.0, allocate, ← s.1, create-blank f ss o s.2 h)

-- `clear` makes every row of a sound object as it was allocated.
pub clear-blank :
    (f : ℕ) (ss : Structs) (o : Object) → IsSound ss o → depth o ≤ f → clear f ss o ≡ done (blank o)
unfolding clear IsSound blank depth
clear-blank f ss (object name text names rs) s h =
    rw (allocate_rows-blank f ss rs s.2 (omega arith))

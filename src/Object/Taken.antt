-- ===== src/Object/Taken.antt =====
-- The bytes that `parse` takes are those that `encode` writes again (src/objects/rssobject.cpp), for
-- any way to read "these are the bytes that were taken" that follows the buffer.
pub mod Induction
use labyrinthus.Base.{
  ap, ◌∙◌, inr, ◌%◌, inl, Option-cases, sym, ℕ, zero, suc, ◌+◌, ◌≤◌, ◌≡◌, refl, Bytes, List, [],
  ◌∷◌, ◌++◌, Run, done, length, take, drop, arith,
}
use labyrinthus.Base.Words.{u32, le_bytes4-mod, sign_extend32, le_bytes, le_value, sub32}
use labyrinthus.Object.Value.{
  int, word, char, Scalar, Kind, Value, Rows, Objects, Object, scalar, dyn, array, nested, end, row,
  nil, item, object, kind_of, elem_name, push_back, count,
}
use labyrinthus.Object.Description.{Structs, find_description, split_description}
use labyrinthus.Object.Create.{create, allocate, allocate_rows}
use labyrinthus.Object.Encode.{size, encode, encode_rows, encode_value, encode_objects}
use labyrinthus.Object.Parse.{
  parse, parse_scalar, parse_dyn, parse_value, parse_rows, parse_array, parse_items, Parsed, Step,
  parsed, rejected, read, bad, widen,
}
use labyrinthus.Object.Typed.{Post, Post-bind, Post-if}

-- No array has elements yet, as after the constructor and `clear`.
unfoldable mutual
  pub IsFresh : Object → Type 0
  IsFresh (object name text names rs) = RowsFresh rs

  pub RowsFresh : Rows → Type 0
  RowsFresh end = Unit {0}
  RowsFresh (row t v rs) = ValueFresh v × RowsFresh rs

  pub ValueFresh : Value → Type 0
  ValueFresh (scalar s n) = Unit {0}
  ValueFresh (dyn b) = Unit {0}
  ValueFresh (array os) = os ≡ nil
  ValueFresh (nested o) = IsFresh o

module _ (new : Bytes → Run Object) (made : (n : Bytes) → Post IsFresh (new n)) where
  allocate-ValueFresh : (t : Bytes) → Post ValueFresh (allocate new t)
  unfolding allocate IsFresh
  allocate-ValueFresh t = go (kind_of t) refl
    where
      go : (k : Kind) → kind_of t ≡ k → Post ValueFresh (allocate new t)
      go (Kind.scalar s) e = rw (e, allocate, Post) tt
      go Kind.dyn e = rw (e, allocate, Post) tt
      go Kind.array e = rw (e, allocate, Post) refl
      go Kind.nested e =
          rw (e, allocate, Post)
            (Post-bind IsFresh ValueFresh (new t) (λ o. done (nested o)) (made t) λ o h. h)

  allocate_rows-RowsFresh : (ts : List Bytes) → Post RowsFresh (allocate_rows new ts)
  unfolding allocate_rows IsFresh
  allocate_rows-RowsFresh [] = tt
  allocate_rows-RowsFresh (t ∷ ts) =
      Post-bind ValueFresh RowsFresh (allocate new t) _ (allocate-ValueFresh t) λ v hv.
        Post-bind RowsFresh RowsFresh (allocate_rows new ts) _ (allocate_rows-RowsFresh ts)
          λ rs hs. (hv, hs)

pub create-IsFresh : (f : ℕ) (ss : Structs) (n : Bytes) → Post IsFresh (create f ss n)
unfolding create
create-IsFresh zero ss n = tt
create-IsFresh (suc f) ss n = elim (Option-cases (find_description ss n)) [
  | inl e ↦ rw e tt
  | inr (text, found) ↦ rw found (elim (Option-cases (split_description text)) [
    | inl e ↦ rw e tt
    | inr (l, split) ↦ rw split (
        Post-bind RowsFresh IsFresh (allocate_rows (create f ss) l.types) _
          (allocate_rows-RowsFresh (create f ss) (create-IsFresh f ss) l.types)
          λ rs h. (unfold IsFresh in h))
  ])
]

-- A relation between what is written, how many bytes were taken, and the buffer
pub record Reading : Type 1 where
  pub Took : Bytes → ℕ → Bytes → Type 0
  pub none_taken : (buf : Bytes) → Took [] 0 buf
  pub taken_next :
      (e f : Bytes) (j k : ℕ) (buf : Bytes)
      → j ≤ length buf
      → Took e j buf
      → Took f k (drop j buf)
      → Took (e ++ f) (j + k) buf
  pub word_taken :
      (w : ℕ) (buf : Bytes) → w ≤ length buf → Took (le_bytes w (le_value (take w buf))) w buf
  pub bytes_taken : (n : ℕ) (buf : Bytes) → n ≤ length buf → Took (take n buf) n buf

sign_extend_low : (x : ℕ) → sign_extend32 x % u32 ≡ x % u32
sign_extend_low x = ground arith

pub widened : (s : Scalar) (x : ℕ) → le_bytes (size s) (widen s x) ≡ le_bytes (size s) x
widened int x =
    sym (le_bytes4-mod (sign_extend32 x)) ∙ ap (le_bytes 4) (sign_extend_low x) ∙ le_bytes4-mod x
widened word x = refl
widened char x = refl

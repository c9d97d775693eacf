-- ===== src/Object/Safety/Total.antt =====
-- The constructor and `parse` always come to an end on safe structs (src/objects/rssobject.cpp).
use labyrinthus.Base.{
  some, ℕ, zero, suc, ◌≤◌, ◌<◌, ◌≡◌, refl, Bytes, List, [], ◌∷◌, Bool, true, inl, inr, Run, done,
  exited, fault, out_of_fuel, arith, length, Option-cases,
}
use labyrinthus.Base.Words.{int_limit}
use labyrinthus.Object.Value.{Kind, Object, object, struct_name, kind_of, nested}
use labyrinthus.Object.Description.{Layout, Structs, find_description, split_description}
use labyrinthus.Object.Create.{create, allocate, allocate_rows}
use labyrinthus.Object.Parse.{parse, parsed, rejected, parse_rows}
use labyrinthus.Object.Typed.{IsTyped, Post, Named}
use labyrinthus.Object.Typed.Kept.{create-IsTyped}
use labyrinthus.Object.Safety.{
  safe_type, safe_last, safe_types, safe_struct, Sure, Sure-bind, Within,
}
use labyrinthus.Object.Safety.Fields.{rows-Within, both_true}

abbrev pub Ends : {A : Type 0} → Run A → Type 0
Ends r = Sure (λ _. Unit {0}) r

pub Ends-Post : {A : Type 0} (P : A → Type 0) (r : Run A) → Ends r → Post P r → Sure P r
Ends-Post P (done a) e h = h
Ends-Post P exited e h = e
Ends-Post P fault e h = e
Ends-Post P out_of_fuel e h = e

module _ (safe : Bytes → Bool) (new : Bytes → Run Object)
    (made : (n : Bytes) → safe n ≡ true → Ends (new n)) where
  allocate-Ends : (t : Bytes) → (kind_of t ≡ Kind.nested → safe t ≡ true) → Ends (allocate new t)
  unfolding allocate
  allocate-Ends t h = go (kind_of t) refl
    where
      go : (k : Kind) → kind_of t ≡ k → Ends (allocate new t)
      go (Kind.scalar s) e = rw (e, allocate, Sure) tt
      go Kind.dyn e = rw (e, allocate, Sure) tt
      go Kind.array e = rw (e, allocate, Sure) tt
      go Kind.nested e =
          rw (e, allocate, Sure)
            (Sure-bind (λ _. Unit {0}) (λ _. Unit {0}) (new t) (λ o. done (nested o)) (made t (h e))
              λ _ _. tt)

  last_nested : (t : Bytes) → safe_last safe t ≡ true → kind_of t ≡ Kind.nested → safe t ≡ true
  unfolding safe_last
  last_nested t h k = ground arith

  type_nested : (t : Bytes) → safe_type safe t ≡ true → kind_of t ≡ Kind.nested → safe t ≡ true
  unfolding safe_type
  type_nested t h k = ground arith

  allocate_rows-Ends : (ts : List Bytes) → safe_types safe ts ≡ true → Ends (allocate_rows new ts)
  unfolding allocate_rows safe_types
  allocate_rows-Ends [] h = tt
  allocate_rows-Ends (t ∷ []) h =
      Sure-bind (λ _. Unit {0}) (λ _. Unit {0}) (allocate new t) _
        (allocate-Ends t (last_nested t h)) λ v _. tt
  allocate_rows-Ends (t ∷ u ∷ ts) h =
      let (ht, hu) = both_true (safe_type safe t) _ h in
      Sure-bind (λ _. Unit {0}) (λ _. Unit {0}) (allocate new t) _
        (allocate-Ends t (type_nested t ht))
        λ v _.
          Sure-bind (λ _. Unit {0}) (λ _. Unit {0}) (allocate_rows new (u ∷ ts)) _
            (allocate_rows-Ends (u ∷ ts) hu) λ rs _. tt

-- What `safe_struct` looked up
module _ (f : ℕ) (ss : Structs) (n : Bytes) (h : safe_struct (suc f) ss n ≡ true) where
  safe_found : (text : Bytes) × (find_description ss n ≡ some text)
  unfolding safe_struct
  safe_found = elim (Option-cases (find_description ss n)) [
    | inl e ↦ absurd (ground arith)
    | inr p ↦ p
  ]

  safe_split :
      (text : Bytes)
      → find_description ss n ≡ some text
      → (l : Layout) × (split_description text ≡ some l)
  unfolding safe_struct
  safe_split text e = elim (Option-cases (split_description text)) [
    | inl g ↦ absurd (ground arith)
    | inr p ↦ p
  ]

  safe_layout :
      (text : Bytes) (l : Layout)
      → find_description ss n ≡ some text
      → split_description text ≡ some l
      → safe_types (safe_struct f ss) l.types ≡ true
  unfolding safe_struct
  safe_layout text l e g = ground arith

create-Ends : (f : ℕ) (ss : Structs) (n : Bytes) → safe_struct f ss n ≡ true → Ends (create f ss n)
unfolding create
create-Ends zero ss n h = absurd (unfold safe_struct in cc)
create-Ends (suc f) ss n h =
    let (text, e) = safe_found f ss n h in
    let (l, g) = safe_split f ss n h text e in
    rw (e, g)
      (Sure-bind (λ _. Unit {0}) (λ _. Unit {0}) (allocate_rows (create f ss) l.types) _
        (allocate_rows-Ends (safe_struct f ss) (create f ss) (create-Ends f ss) l.types
          (safe_layout f ss n h text l e g))
        λ rs _. tt)

-- The constructor returns an object of a safe struct; it neither ends the process nor recurs for
-- ever.
pub create_total :
    (f : ℕ) (ss : Structs) (n : Bytes)
    → safe_struct f ss n ≡ true
    → Sure (Named ss n) (create f ss n)
create_total f ss n h =
    Ends-Post (Named ss n) (create f ss n) (create-Ends f ss n h) (create-IsTyped f ss n)

-- On an object of a safe struct and any bytes, `parse` ends with a result and never reads outside
-- the buffer, if `len` is at most what the buffer holds; on success it took at most `len` bytes.
pub parse_total :
    (f : ℕ) (ss : Structs) (o : Object) (buf : Bytes) (len : ℕ)
    → IsTyped ss o
    → safe_struct f ss (struct_name o) ≡ true
    → len ≤ length buf
    → len < int_limit
    → Sure (Within len) (parse f ss o buf len)
unfolding parse IsTyped
parse_total zero ss o buf len ty h b lt = absurd (unfold safe_struct in cc)
parse_total (suc f) ss (object name text names rs) buf len (found, split, ty) h b lt =
    Sure-bind (Within len) (Within len) (parse_rows (create f ss) (parse f ss) rs buf len) _
      (rows-Within ss (safe_struct f ss) (create f ss) (parse f ss) (create_total f ss)
        (parse_total f ss) rs buf len ty (safe_layout f ss name h text _ found split) b lt)
      (elim [ parsed rs' k ↦ λ g. g | rejected rs' ↦ λ g. g ])

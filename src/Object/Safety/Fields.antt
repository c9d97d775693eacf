-- ===== src/Object/Safety/Fields.antt =====
-- `parse` of one row, where the type texts are safe (src/objects/rssobject.cpp).
use labyrinthus.Base.{
  lt→ltb, exited, fault, out_of_fuel, ◌⊎◌, ltb→lt, ◌≢◌, ℕ, zero, suc, ◌+◌, ◌-◌, ◌≤◌, ◌<◌, ◌≡◌, refl,
  ap, ◌∙◌, Bytes, Bool, true, false, ◌&&◌, ◌==◌, inl, inr, some, Run, done, arith, length, take,
  drop, length-drop, ltb, ltb_false→le, Bool-cases, Option-cases,
}
use labyrinthus.Base.Words.{int_limit, sub32, sub32_exact, le_value}
use labyrinthus.Object.Value.{
  Kind, Scalar, int, word, char, Value, Rows, Objects, Object, scalar, dyn, array, nested, end, row,
  kind_of, elem_name, struct_name, types_of, push_back,
}
use labyrinthus.Object.Description.{Structs}
use labyrinthus.Object.Encode.{size}
use labyrinthus.Object.Parse.{
  Step, Parsed, parsed, rejected, read, bad, parse_rows, parse_value, parse_scalar, parse_dyn,
  parse_array, parse_items,
}
use labyrinthus.Object.Typed.{IsTyped, RowsTyped, ValueTyped, Named}
use labyrinthus.Object.Safety.{
  safe_type, safe_last, safe_types, Sure, Sure-bind, Sure-if, Within, Taken, Tracked,
}

pub both_true : (a b : Bool) → (a && b) ≡ true → (a ≡ true) × (b ≡ true)
both_true a b h = ground arith

-- A test of `len` that passed is enough for the read behind it.
inside : (n len m : ℕ) → len ≤ m → ltb len n ≡ false → ltb m n ≡ true → ⊥
inside n len m h g e = omega (arith, ltb_false→le len n g, ltb→lt m n e)

scalar-Taken :
    (s : Scalar) (old : ℕ) (buf : Bytes) (len : ℕ)
    → len ≤ length buf
    → Sure (Taken len) (parse_scalar s old buf len)
unfolding parse_scalar
scalar-Taken s old buf len h =
    Sure-if (Taken len) (ltb len (size s)) _ _ (λ _. tt)
      λ g.
        Sure-if (Taken len) (ltb (length buf) (size s)) _ _
          (λ e. inside (size s) len (length buf) h g e) λ _. ltb_false→le len (size s) g

scalar-Tracked :
    (s : Scalar) (old : ℕ) (buf : Bytes) (len : ℕ)
    → s ≢ int
    → len ≤ length buf
    → Sure (Tracked len) (parse_scalar s old buf len)
unfolding parse_scalar
scalar-Tracked int old buf len n h = absurd (n refl)
scalar-Tracked word old buf len n h =
    Sure-if (Tracked len) (ltb len (size word)) _ _ (λ _. tt)
      λ g.
        Sure-if (Tracked len) (ltb (length buf) (size word)) _ _
          (λ e. inside (size word) len (length buf) h g e)
          λ _. (ltb_false→le len (size word) g, refl)
scalar-Tracked char old buf len n h =
    Sure-if (Tracked len) (ltb len (size char)) _ _ (λ _. tt)
      λ g.
        Sure-if (Tracked len) (ltb (length buf) (size char)) _ _
          (λ e. inside (size char) len (length buf) h g e)
          λ _. (ltb_false→le len (size char) g, refl)

dyn-Tracked :
    (old buf : Bytes) (len : ℕ) → len ≤ length buf → Sure (Tracked len) (parse_dyn old buf len)
unfolding parse_dyn
dyn-Tracked old buf len h =
    let P = Tracked len in
    let n = le_value (take 4 buf) in
    Sure-if P (ltb len 4) _ _ (λ _. tt)
      λ g.
        Sure-if P (ltb (length buf) 4) _ _ (λ e. inside 4 len (length buf) h g e)
          λ _.
            Sure-if P (ltb (len - 4) n) _ _ (λ _. tt)
              λ k.
                Sure-if P (ltb (length buf - 4) n) _ _
                  (λ e. inside n (len - 4) (length buf - 4) (omega arith) k e)
                  λ _. omega (arith, ltb_false→le len 4 g, ltb_false→le (len - 4) n k)

weaken : (len : ℕ) (r : Run (Step Value)) → Sure (Tracked len) r → Sure (Taken len) r
weaken len (done (read v k len')) h = h.0
weaken len (done (bad v)) h = tt
weaken len exited h = h
weaken len fault h = h
weaken len out_of_fuel h = h

-- What the tests on a type text say of a row of its kind
module _ (safe : Bytes → Bool) (t : Bytes) where
  not_int : kind_of t ≡ Kind.scalar int → safe_type safe t ≡ true → ⊥
  unfolding safe_type
  not_int k h = ground arith

  elem_safe :
      kind_of t ≡ Kind.array
      → safe_type safe t ≡ true
      → (e : Bytes) × (elem_name t ≡ some e) × (safe e ≡ true)
  unfolding safe_type
  elem_safe k h = elim (Option-cases (elem_name t)) [
    | inl n ↦ absurd (ground arith)
    | inr (e, n) ↦ (e, n, ground arith)
  ]

  nested_safe : kind_of t ≡ Kind.nested → safe_type safe t ≡ true → safe t ≡ true
  unfolding safe_type
  nested_safe k h = ground arith

  -- A last row that is not an int is as any other.
  last_cases : safe_last safe t ≡ true → (kind_of t ≡ Kind.scalar int) ⊎ (safe_type safe t ≡ true)
  unfolding safe_last safe_type
  last_cases h = ground arith

-- What `create` and `parse` at less fuel are known to do on safe structs
module _ (ss : Structs) (safe : Bytes → Bool) (new : Bytes → Run Object)
    (sub : Object → Bytes → ℕ → Run (Parsed Object))
    (made : (n : Bytes) → safe n ≡ true → Sure (Named ss n) (new n))
    (went : (o : Object) (buf : Bytes) (len : ℕ)
      → IsTyped ss o
      → safe (struct_name o) ≡ true
      → len ≤ length buf
      → len < int_limit
      → Sure (Within len) (sub o buf len)) where
  items-Tracked :
      (e : Bytes) (n : ℕ) (buf : Bytes) (len skip m : ℕ) (v : Objects)
      → safe e ≡ true
      → len ≤ length buf
      → len < int_limit
      → skip + len ≡ m
      → Sure (Tracked m) (parse_items (new e) sub n buf len skip v)
  unfolding parse_items
  items-Tracked e zero buf len skip m v s h lt q = omega arith
  items-Tracked e (suc n) buf len skip m v s h lt q = elim (Bool-cases (len == 0)) [
    | inl stop ↦ rw (stop, parse_items) tt
    | inr on ↦
        rw (on, parse_items)
          (Sure-bind (Named ss e) (Tracked m) (new e) _ (made e s) λ o ho.
            Sure-bind (Within len) (Tracked m) (sub o buf len) _
              (went o buf len ho.1 (rw ho.0 s) h lt)
              (elim [
                | parsed o' ll ↦ λ g.
                    let exact = sub32_exact len ll g lt in
                    rw (lt→ltb ll int_limit (omega arith)) (
                      items-Tracked e n (drop ll buf) (sub32 len ll) (skip + ll) m (push_back v o')
                        s (omega (arith, exact, length-drop ll buf)) (omega (arith, exact))
                        (omega (arith, exact)))
                | rejected _ ↦ λ _. tt
              ]))
  ]

  array-Tracked :
      (t e : Bytes) (old : Objects) (buf : Bytes) (len : ℕ)
      → elem_name t ≡ some e
      → safe e ≡ true
      → len ≤ length buf
      → len < int_limit
      → Sure (Tracked len) (parse_array new sub t old buf len)
  unfolding parse_array
  array-Tracked t e old buf len named s h lt =
      let P = Tracked len in
      let n = le_value (take 4 buf) in
      Sure-if P (ltb len 4) _ _ (λ _. tt)
        λ g.
          Sure-if P (ltb (length buf) 4) _ _ (λ k. inside 4 len (length buf) h g k)
            λ _. rw named (
              Sure-bind (Tracked len) P (parse_items (new e) sub n (drop 4 buf) (len - 4) 4 old) _
                (items-Tracked e n (drop 4 buf) (len - 4) 4 len old s
                  (omega (arith, length-drop 4 buf)) (omega arith)
                  (omega (arith, ltb_false→le len 4 g)))
                (elim [ read v m len' ↦ λ g. g | bad v ↦ λ _. tt ]))

  nested-Tracked :
      (o : Object) (buf : Bytes) (len : ℕ) (t : Bytes)
      → IsTyped ss o
      → safe (struct_name o) ≡ true
      → len ≤ length buf
      → len < int_limit
      → Sure (Tracked len) (parse_value new sub t (nested o) buf len)
  unfolding parse_value
  nested-Tracked o buf len t ty s h lt =
      Sure-bind (Within len) (Tracked len) (sub o buf len) _ (went o buf len ty s h lt) (elim [
        | parsed o' ll ↦ λ g. rw (lt→ltb ll int_limit (omega arith)) (g, sub32_exact len ll g lt)
        | rejected o' ↦ λ _. tt
      ])

  value-Tracked :
      (t : Bytes) (v : Value) (buf : Bytes) (len : ℕ)
      → ValueTyped ss t v
      → safe_type safe t ≡ true
      → len ≤ length buf
      → len < int_limit
      → Sure (Tracked len) (parse_value new sub t v buf len)
  unfolding parse_value IsTyped
  value-Tracked t (scalar s old) buf len k f h lt =
      scalar-Tracked s old buf len (λ e. not_int safe t (k ∙ ap Kind.scalar e) f) h
  value-Tracked t (dyn old) buf len k f h lt = dyn-Tracked old buf len h
  value-Tracked t (array old) buf len (k, s) f h lt =
      let (e, named, g) = elem_safe safe t k f in array-Tracked t e old buf len named g h lt
  value-Tracked t (nested o) buf len (k, name, ty) f h lt =
      nested-Tracked o buf len t ty (rw name (nested_safe safe t k f)) h lt

  int-Taken :
      (t : Bytes) (v : Value) (buf : Bytes) (len : ℕ)
      → ValueTyped ss t v
      → kind_of t ≡ Kind.scalar int
      → len ≤ length buf
      → Sure (Taken len) (parse_value new sub t v buf len)
  unfolding parse_value IsTyped
  int-Taken t (scalar s old) buf len ty k h = scalar-Taken s old buf len h
  int-Taken t (dyn old) buf len ty k h = absurd (cc)
  int-Taken t (array old) buf len (ty, _) k h = absurd (cc)
  int-Taken t (nested o) buf len (ty, _, _) k h = absurd (cc)

  last-Taken :
      (t : Bytes) (v : Value) (buf : Bytes) (len : ℕ)
      → ValueTyped ss t v
      → safe_last safe t ≡ true
      → len ≤ length buf
      → len < int_limit
      → Sure (Taken len) (parse_value new sub t v buf len)
  unfolding parse_value IsTyped
  last-Taken t v buf len ty f h lt = elim (last_cases safe t f) [
    | inl k ↦ int-Taken t v buf len ty k h
    | inr g ↦ weaken len (parse_value new sub t v buf len) (value-Tracked t v buf len ty g h lt)
  ]

  pub rows-Within :
      (rs : Rows) (buf : Bytes) (len : ℕ)
      → RowsTyped ss rs
      → safe_types safe (types_of rs) ≡ true
      → len ≤ length buf
      → len < int_limit
      → Sure (Within len) (parse_rows new sub rs buf len)
  unfolding parse_rows IsTyped safe_types
  rows-Within end buf len ty f h lt = omega arith
  rows-Within (row t v end) buf len (tv, _) f h lt =
      Sure-bind (Taken len) (Within len) (parse_value new sub t v buf len) _
        (last-Taken t v buf len tv f h lt)
        (elim [ read v' k len' ↦ λ g. omega arith | bad v' ↦ λ _. tt ])
  rows-Within (row t v (row u w rs)) buf len (tv, ty) f h lt =
      let (ft, fu) = both_true (safe_type safe t) _ f in
      Sure-bind (Tracked len) (Within len) (parse_value new sub t v buf len) _
        (value-Tracked t v buf len tv ft h lt)
        (elim [
          | read v' k len' ↦ λ g.
              Sure-bind (Within len') (Within len)
                (parse_rows new sub (row u w rs) (drop k buf) len') _
                (rows-Within (row u w rs) (drop k buf) len' ty fu
                  (omega (arith, length-drop k buf, g.1)) (omega (arith, g.1)))
                (elim [ parsed rs' m ↦ λ q. omega (arith, g.0, g.1) | rejected rs' ↦ λ _. tt ])
          | bad v' ↦ λ _. tt
        ])

-- ===== src/Object/Typed/Fields.antt =====
-- `parse` and the allocation of one row keep the form of its value (src/objects/rssobject.cpp).
use labyrinthus.Base.{
  ltb_false→le, ◌-◌, Option-cases, ltb, take, length-drop, sym, ◌∙◌, drop, inr, inl, ◌==◌,
  Bool-cases, ◌+◌, ap, length, List, ◌≤◌, ℕ, zero, suc, ◌≡◌, refl, Bytes, [], ◌∷◌, some, Run, done,
  arith,
}
use labyrinthus.Base.Words.{int_limit, le_value, sub32}
use labyrinthus.Object.Value.{
  Scalar, Kind, Value, Rows, Objects, Object, scalar, dyn, array, nested, end, row, nil, item,
  kind_of, elem_name, struct_name, types_of, push_back,
}
use labyrinthus.Object.Description.{Structs}
use labyrinthus.Object.Create.{allocate, allocate_rows}
use labyrinthus.Object.Parse.{
  parse_scalar, parse_dyn, parse_value, parse_rows, parse_array, Parsed, parsed, rejected, read,
  bad, parse_items,
}
use labyrinthus.Object.Encode.{size}
use labyrinthus.Object.Typed.{
  IsTyped, RowsTyped, ValueTyped, ItemsTyped, Post, Post-bind, Post-if, Target, Left, Named, Listed,
}

push_back-ItemsTyped :
    (ss : Structs) (t : Bytes) (v : Objects) (o : Object)
    → ItemsTyped ss t v
    → elem_name t ≡ some (struct_name o)
    → IsTyped ss o
    → ItemsTyped ss t (push_back v o)
unfolding IsTyped
push_back-ItemsTyped ss t nil o s e h = (e, h, tt)
push_back-ItemsTyped ss t (item a v) o (ea, ha, s) e h =
    (ea, ha, push_back-ItemsTyped ss t v o s e h)

parse_scalar-ValueTyped :
    (ss : Structs) (t : Bytes) (s : Scalar) (old : ℕ) (buf : Bytes) (len : ℕ)
    → kind_of t ≡ Kind.scalar s
    → Post (Left (ValueTyped ss t) (length buf)) (parse_scalar s old buf len)
unfolding parse_scalar IsTyped
parse_scalar-ValueTyped ss t s old buf len k =
    let P = Left (ValueTyped ss t) (length buf) in
    Post-if P (ltb len (size s)) _ _ (λ _. k)
      λ _.
        Post-if P (ltb (length buf) (size s)) _ _ (λ _. tt)
          λ h. (k, ltb_false→le (length buf) (size s) h)

parse_dyn-ValueTyped :
    (ss : Structs) (t old buf : Bytes) (len : ℕ)
    → kind_of t ≡ Kind.dyn
    → Post (Left (ValueTyped ss t) (length buf)) (parse_dyn old buf len)
unfolding parse_dyn IsTyped
parse_dyn-ValueTyped ss t old buf len k =
    let P = Left (ValueTyped ss t) (length buf) in
    let n = le_value (take 4 buf) in
    Post-if P (ltb len 4) _ _ (λ _. k)
      λ _.
        Post-if P (ltb (length buf) 4) _ _ (λ _. tt)
          λ h.
            Post-if P (ltb (len - 4) n) _ _ (λ _. k)
              λ _.
                Post-if P (ltb (length buf - 4) n) _ _ (λ _. tt)
                  λ g. (
                    k,
                    omega (arith, ltb_false→le (length buf) 4 h, ltb_false→le (length buf - 4) n g),
                  )

module _ (ss : Structs) (new : Bytes → Run Object)
    (made : (n : Bytes) → Post (Named ss n) (new n)) where
  allocate-ValueTyped : (t : Bytes) → Post (ValueTyped ss t) (allocate new t)
  unfolding allocate IsTyped
  allocate-ValueTyped t = go (kind_of t) refl
    where
      go : (k : Kind) → kind_of t ≡ k → Post (ValueTyped ss t) (allocate new t)
      go (Kind.scalar s) e = rw (e, allocate, Post) e
      go Kind.dyn e = rw (e, allocate, Post) e
      go Kind.array e = rw (e, allocate, Post) (e, tt)
      go Kind.nested e =
          rw (e, allocate, Post)
            (Post-bind (Named ss t) (ValueTyped ss t) (new t) (λ o. done (nested o)) (made t)
              λ o h. (e, h.0, h.1))

  pub allocate_rows-RowsTyped : (ts : List Bytes) → Post (Listed ss ts) (allocate_rows new ts)
  unfolding allocate_rows IsTyped
  allocate_rows-RowsTyped [] = (refl, tt)
  allocate_rows-RowsTyped (t ∷ ts) =
      Post-bind (ValueTyped ss t) (Listed ss (t ∷ ts)) (allocate new t) _ (allocate-ValueTyped t)
        λ v hv.
          Post-bind (Listed ss ts) (Listed ss (t ∷ ts)) (allocate_rows new ts) _
            (allocate_rows-RowsTyped ts) λ rs hs. (ap (λ r. t ∷ r) hs.0, (hv, hs.1))

-- What `create` at less fuel, and `parse` at less fuel, are known to give
module _ (ss : Structs) (new : Bytes → Run Object) (sub : Object → Bytes → ℕ → Run (Parsed Object))
    (made : (n : Bytes) → Post (Named ss n) (new n))
    (went : (o : Object) (buf : Bytes) (len : ℕ)
      → IsTyped ss o
      → Post (Target (Named ss (struct_name o)) (length buf)) (sub o buf len)) where
  parse_items-ItemsTyped :
      (t e : Bytes) (n : ℕ) (buf : Bytes) (len skip m : ℕ) (v : Objects)
      → elem_name t ≡ some e
      → ItemsTyped ss t v
      → skip + length buf ≤ m
      → Post (Left (ItemsTyped ss t) m) (parse_items (new e) sub n buf len skip v)
  unfolding parse_items IsTyped
  parse_items-ItemsTyped t e zero buf len skip m v he s h = (s, omega arith)
  parse_items-ItemsTyped t e (suc n) buf len skip m v he s h = elim (Bool-cases (len == 0)) [
    | inl stop ↦ rw (stop, parse_items) s
    | inr on ↦
        rw (on, parse_items)
          (Post-bind (Named ss e) (Left (ItemsTyped ss t) m) (new e) _ (made e) λ o ho.
            Post-bind (Target (Named ss (struct_name o)) (length buf)) (Left (ItemsTyped ss t) m)
              (sub o buf len) _ (went o buf len ho.1)
              (elim [
                | parsed o' ll ↦ λ g.
                    Post-if (Left (ItemsTyped ss t) m) (ltb ll int_limit) _ _
                      (λ _.
                        parse_items-ItemsTyped t e n (drop ll buf) (sub32 len ll) (skip + ll) m
                          (push_back v o') he
                          (push_back-ItemsTyped ss t v o' s (he ∙ ap some (sym (g.0.0 ∙ ho.0)))
                            g.0.1)
                          (omega (arith, length-drop ll buf)))
                      (λ _. tt)
                | rejected _ ↦ λ _. s
              ]))
  ]

  parse_array-ValueTyped :
      (t : Bytes) (old : Objects) (buf : Bytes) (len : ℕ)
      → ValueTyped ss t (array old)
      → Post (Left (ValueTyped ss t) (length buf)) (parse_array new sub t old buf len)
  unfolding parse_array IsTyped
  parse_array-ValueTyped t old buf len (k, s) =
      let P = Left (ValueTyped ss t) (length buf) in
      let n = le_value (take 4 buf) in
      Post-if P (ltb len 4) _ _ (λ _. (k, s))
        λ _.
          Post-if P (ltb (length buf) 4) _ _ (λ _. tt)
            λ h. elim (Option-cases (elem_name t)) [
              | inl e ↦ rw e tt
              | inr (e, he) ↦ rw he (
                  Post-bind (Left (ItemsTyped ss t) (length buf)) P
                    (parse_items (new e) sub n (drop 4 buf) (len - 4) 4 old) _
                    (parse_items-ItemsTyped t e n (drop 4 buf) (len - 4) 4 (length buf) old he s
                      (omega (arith, length-drop 4 buf, ltb_false→le (length buf) 4 h)))
                    (elim [ read v m len' ↦ λ g. ((k, g.0), g.1) | bad v ↦ λ g. (k, g) ]))
            ]

  parse_value-ValueTyped :
      (t : Bytes) (v : Value) (buf : Bytes) (len : ℕ)
      → ValueTyped ss t v
      → Post (Left (ValueTyped ss t) (length buf)) (parse_value new sub t v buf len)
  unfolding parse_value
  parse_value-ValueTyped t (scalar s old) buf len h =
      parse_scalar-ValueTyped ss t s old buf len (unfold IsTyped in h)
  parse_value-ValueTyped t (dyn old) buf len h =
      parse_dyn-ValueTyped ss t old buf len (unfold IsTyped in h)
  parse_value-ValueTyped t (array old) buf len h = parse_array-ValueTyped t old buf len h
  parse_value-ValueTyped t (nested o) buf len h =
      unfold IsTyped in
      Post-bind (Target (Named ss (struct_name o)) (length buf))
        (Left (ValueTyped ss t) (length buf)) (sub o buf len) _ (went o buf len h.2)
        (elim [
          | parsed o' ll ↦ λ g.
              Post-if (Left (ValueTyped ss t) (length buf)) (ltb ll int_limit) _ _
                (λ _. ((h.0, g.0.0 ∙ h.1, g.0.1), g.1)) (λ _. tt)
          | rejected o' ↦ λ g. (h.0, g.0 ∙ h.1, g.1)
        ])

  pub parse_rows-RowsTyped :
      (rs : Rows) (buf : Bytes) (len : ℕ)
      → RowsTyped ss rs
      → Post (Target (Listed ss (types_of rs)) (length buf)) (parse_rows new sub rs buf len)
  unfolding parse_rows IsTyped
  parse_rows-RowsTyped end buf len h = ((refl, tt), omega arith)
  parse_rows-RowsTyped (row t v rs) buf len (hv, h) =
      let Q = Target (Listed ss (t ∷ types_of rs)) (length buf) in
      Post-bind (Left (ValueTyped ss t) (length buf)) Q (parse_value new sub t v buf len) _
        (parse_value-ValueTyped t v buf len hv)
        (elim [
          | read v' k len' ↦ λ g.
              Post-bind (Target (Listed ss (types_of rs)) (length (drop k buf))) Q
                (parse_rows new sub rs (drop k buf) len') _
                (parse_rows-RowsTyped rs (drop k buf) len' h)
                (elim [
                  | parsed rs' m ↦ λ q. (
                    (ap (λ r. t ∷ r) q.0.0, (g.0, q.0.1)),
                    omega (arith, q.1, g.1, length-drop k buf),
                  )
                  | rejected rs' ↦ λ q. (ap (λ r. t ∷ r) q.0, (g.0, q.1))
                ])
          | bad v' ↦ λ g. (refl, (g, h))
        ])

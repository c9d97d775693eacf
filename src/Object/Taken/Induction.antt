-- ===== src/Object/Taken/Induction.antt =====
-- `parse` takes the bytes that `encode` writes again, row by row (src/objects/rssobject.cpp).
use labyrinthus.Base.{
  append_assoc, ◌∙◌, inr, ◌==◌, inl, Bool-cases, Option-cases, append-nil, ◌-◌, ltb_false→le,
  length-drop, sym, [], ap, ltb, length-take, ℕ, zero, suc, ◌+◌, ◌≤◌, ◌≡◌, refl, Bytes, ◌++◌, Run,
  length, take, drop, arith,
}
use labyrinthus.Base.Words.{int_limit, le_bytes, le_value, sub32}
use labyrinthus.Object.Value.{
  Scalar, Value, Rows, Objects, Object, scalar, dyn, array, nested, end, row, nil, item, object,
  elem_name, push_back, count,
}
use labyrinthus.Object.Description.{Structs}
use labyrinthus.Object.Create.{create}
use labyrinthus.Object.Encode.{size, encode, encode_rows, encode_value, encode_objects}
use labyrinthus.Object.Parse.{
  parse, parse_scalar, parse_dyn, parse_value, parse_rows, parse_array, parse_items, Parsed, Step,
  parsed, rejected, read, bad,
}
use labyrinthus.Object.Typed.{Post-imp, Post, Post-bind, Post-if}
use labyrinthus.Object.Taken.{IsFresh, RowsFresh, ValueFresh, Reading, widened, create-IsFresh}

count-push_back : (v : Objects) (o : Object) → count (push_back v o) ≡ suc (count v)
count-push_back nil o = refl
count-push_back (item a v) o = ap suc (count-push_back v o)

encode_objects-push_back :
    (v : Objects) (o : Object) → encode_objects (push_back v o) ≡ encode_objects v ++ encode o
unfolding encode
encode_objects-push_back nil o = append-nil (encode o)
encode_objects-push_back (item a v) o =
    ap (λ b. encode a ++ b) (encode_objects-push_back v o)
    ∙ sym (append_assoc (encode a) (encode_objects v) (encode o))

module _ (r : Reading) where
  open r use {Took, none_taken, taken_next, word_taken, bytes_taken}

  -- What a parsed target is encoded to was taken from the buffer.
  abbrev pub Taken : {A : Type 0} → (A → Bytes) → Bytes → Parsed A → Type 0
  Taken enc buf (parsed a k) = Took (enc a) k buf × (k ≤ length buf)
  Taken enc buf (rejected a) = Unit {0}

  abbrev StepTaken : Bytes → Step Value → Type 0
  StepTaken buf (read v k len) = Took (encode_value v) k buf × (k ≤ length buf)
  StepTaken buf (bad v) = Unit {0}

  -- The elements behind those that are there, of so many bytes behind the first ones
  abbrev ItemsTaken : Objects → ℕ → ℕ → Bytes → Step Objects → Type 0
  ItemsTaken v left skip buf (read v' k len) =
      (e : Bytes) × (j : ℕ) × (encode_objects v' ≡ encode_objects v ++ e)
      × Took e j buf
      × (k ≡ skip + j)
      × (j ≤ length buf)
      × (count v' ≡ count v + left)
  ItemsTaken v left skip buf (bad v') = Unit {0}

  parse_scalar-Taken :
      (s : Scalar) (old : ℕ) (buf : Bytes) (len : ℕ)
      → Post (StepTaken buf) (parse_scalar s old buf len)
  unfolding parse_scalar encode
  parse_scalar-Taken s old buf len =
      let P = StepTaken buf in
      Post-if P (ltb len (size s)) _ _ (λ _. tt)
        λ _.
          Post-if P (ltb (length buf) (size s)) _ _ (λ _. tt)
            λ h.
              let enough = ltb_false→le (length buf) (size s) h in
              (
                rw (widened s (le_value (take (size s) buf))) (word_taken (size s) buf enough),
                enough,
              )

  dyn_taken :
      (n : ℕ) (buf : Bytes)
      → n ≡ le_value (take 4 buf)
      → 4 + n ≤ length buf
      → Took (encode_value (dyn (take n (drop 4 buf)))) (4 + n) buf
  unfolding encode
  dyn_taken n buf e h =
      let whole : length (take n (drop 4 buf)) ≡ le_value (take 4 buf) =
        omega (arith, length-take n (drop 4 buf), length-drop 4 buf) in
      rw (whole) (
        taken_next (le_bytes 4 (le_value (take 4 buf))) (take n (drop 4 buf)) 4 n buf (omega arith)
          (word_taken 4 buf (omega arith))
          (bytes_taken n (drop 4 buf) (omega (arith, length-drop 4 buf))))

  parse_dyn-Taken : (old buf : Bytes) (len : ℕ) → Post (StepTaken buf) (parse_dyn old buf len)
  unfolding parse_dyn
  parse_dyn-Taken old buf len =
      let P = StepTaken buf in
      let n = le_value (take 4 buf) in
      Post-if P (ltb len 4) _ _ (λ _. tt)
        λ _.
          Post-if P (ltb (length buf) 4) _ _ (λ _. tt)
            λ h.
              Post-if P (ltb (len - 4) n) _ _ (λ _. tt)
                λ _.
                  Post-if P (ltb (length buf - 4) n) _ _ (λ _. tt)
                    λ g.
                      let enough : 4 + n ≤ length buf =
                        omega (
                          arith,
                          ltb_false→le (length buf) 4 h,
                          ltb_false→le (length buf - 4) n g,
                        ) in
                      (dyn_taken n buf refl enough, enough)

  -- One element, and then the others
  one_more :
      (v : Objects) (left skip : ℕ) (buf : Bytes) (o : Object) (ll : ℕ)
      → Took (encode o) ll buf
      → ll ≤ length buf
      → (st : Step Objects) → ItemsTaken (push_back v o) left (skip + ll) (drop ll buf) st
      → ItemsTaken v (suc left) skip buf st
  one_more v left skip buf o ll took h (bad v') g = tt
  one_more v left skip buf o ll took h (read v' k len) (e, j, same, rest, k_is, j_in, many) = (
    encode o ++ e,
    ll + j,
    same
        ∙ ap (λ b. b ++ e) (encode_objects-push_back v o)
        ∙ append_assoc (encode_objects v) (encode o) e,
    taken_next (encode o) e ll j buf h took rest,
    omega arith,
    omega (arith, length-drop ll buf),
    omega (arith, count-push_back v o),
  )

  array_taken :
      (v : Objects) (k len : ℕ) (buf : Bytes)
      → 4 ≤ length buf
      → ItemsTaken nil (le_value (take 4 buf)) 4 (drop 4 buf) (read v k len)
      → StepTaken buf (read (array v) k len)
  unfolding encode
  array_taken v k len buf h (e, j, same, took, k_is, j_in, many) =
      let counted : count v ≡ le_value (take 4 buf) = omega arith in
      rw (k_is, same, counted)
        (
          taken_next (le_bytes 4 (le_value (take 4 buf))) e 4 j buf h (word_taken 4 buf h) took,
          omega (arith, length-drop 4 buf),
        )

  nested_taken :
      (o : Object) (k len : ℕ) (buf : Bytes)
      → Took (encode o) k buf × (k ≤ length buf)
      → StepTaken buf (read (nested o) k (sub32 len k))
  unfolding encode
  nested_taken o k len buf g = g

  row_taken :
      (t : Bytes) (v : Value) (rs : Rows) (k m : ℕ) (buf : Bytes)
      → Took (encode_value v) k buf
      → k ≤ length buf
      → Took (encode_rows rs) m (drop k buf) × (m ≤ length (drop k buf))
      → Took (encode_rows (row t v rs)) (k + m) buf × (k + m ≤ length buf)
  unfolding encode
  row_taken t v rs k m buf took h (next, g) = (
    taken_next (encode_value v) (encode_rows rs) k m buf h took next,
    omega (arith, length-drop k buf),
  )

  module _ (new : Bytes → Run Object) (sub : Object → Bytes → ℕ → Run (Parsed Object))
      (made : (n : Bytes) → Post IsFresh (new n))
      (went : (o : Object) (buf : Bytes) (len : ℕ)
        → IsFresh o
        → Post (Taken encode buf) (sub o buf len)) where
    parse_items-Taken :
        (n : Bytes) (left : ℕ) (buf : Bytes) (len skip : ℕ) (v : Objects)
        → Post (ItemsTaken v left skip buf) (parse_items (new n) sub left buf len skip v)
    unfolding parse_items
    parse_items-Taken n zero buf len skip v = (
      [],
      0,
      sym (append-nil (encode_objects v)),
      none_taken buf,
      omega arith,
      omega arith,
      omega arith,
    )
    parse_items-Taken n (suc left) buf len skip v = elim (Bool-cases (len == 0)) [
      | inl stop ↦ rw (stop, parse_items) tt
      | inr on ↦
          rw (on, parse_items)
            (Post-bind IsFresh (ItemsTaken v (suc left) skip buf) (new n) _ (made n) λ o ho.
              Post-bind (Taken encode buf) (ItemsTaken v (suc left) skip buf) (sub o buf len) _
                (went o buf len ho)
                (elim [
                  | parsed o' ll ↦ λ g.
                      Post-if (ItemsTaken v (suc left) skip buf) (ltb ll int_limit) _ _
                        (λ _.
                          Post-imp (ItemsTaken (push_back v o') left (skip + ll) (drop ll buf))
                            (ItemsTaken v (suc left) skip buf)
                            (parse_items (new n) sub left (drop ll buf) (sub32 len ll) (skip + ll)
                              (push_back v o'))
                            (parse_items-Taken n left (drop ll buf) (sub32 len ll) (skip + ll)
                              (push_back v o'))
                            (one_more v left skip buf o' ll g.0 g.1))
                        (λ _. tt)
                  | rejected _ ↦ λ _. tt
                ]))
    ]

    parse_array-Taken :
        (t : Bytes) (buf : Bytes) (len : ℕ)
        → Post (StepTaken buf) (parse_array new sub t nil buf len)
    unfolding parse_array
    parse_array-Taken t buf len =
        let P = StepTaken buf in
        let n = le_value (take 4 buf) in
        Post-if P (ltb len 4) _ _ (λ _. tt)
          λ _.
            Post-if P (ltb (length buf) 4) _ _ (λ _. tt)
              λ h. elim (Option-cases (elem_name t)) [
                | inl e ↦ rw e tt
                | inr (e, he) ↦ rw he (
                    Post-bind (ItemsTaken nil n 4 (drop 4 buf)) P
                      (parse_items (new e) sub n (drop 4 buf) (len - 4) 4 nil) _
                      (parse_items-Taken e n (drop 4 buf) (len - 4) 4 nil)
                      (elim [
                        | read v m len' ↦
                            λ g. array_taken v m len' buf (ltb_false→le (length buf) 4 h) g
                        | bad v ↦ λ g. tt
                      ]))
              ]

    parse_value-Taken :
        (t : Bytes) (v : Value) (buf : Bytes) (len : ℕ)
        → ValueFresh v
        → Post (StepTaken buf) (parse_value new sub t v buf len)
    unfolding parse_value IsFresh
    parse_value-Taken t (scalar s old) buf len h = parse_scalar-Taken s old buf len
    parse_value-Taken t (dyn old) buf len h = parse_dyn-Taken old buf len
    parse_value-Taken t (array old) buf len h = rw h (parse_array-Taken t buf len)
    parse_value-Taken t (nested o) buf len h =
        Post-bind (Taken encode buf) (StepTaken buf) (sub o buf len) _ (went o buf len h) (elim [
          | parsed o' ll ↦ λ g.
              Post-if (StepTaken buf) (ltb ll int_limit) _ _ (λ _. nested_taken o' ll len buf g)
                (λ _. tt)
          | rejected o' ↦ λ g. tt
        ])

    parse_rows-Taken :
        (rs : Rows) (buf : Bytes) (len : ℕ)
        → RowsFresh rs
        → Post (Taken encode_rows buf) (parse_rows new sub rs buf len)
    unfolding parse_rows IsFresh
    parse_rows-Taken end buf len h = unfold encode in (none_taken buf, omega arith)
    parse_rows-Taken (row t v rs) buf len (hv, h) =
        Post-bind (StepTaken buf) (Taken encode_rows buf) (parse_value new sub t v buf len) _
          (parse_value-Taken t v buf len hv)
          (elim [
            | read v' k len' ↦ λ g.
                Post-bind (Taken encode_rows (drop k buf)) (Taken encode_rows buf)
                  (parse_rows new sub rs (drop k buf) len') _
                  (parse_rows-Taken rs (drop k buf) len' h)
                  (elim [
                    | parsed rs' m ↦ λ q. row_taken t v' rs' k m buf g.0 g.1 q
                    | rejected rs' ↦ λ q. tt
                  ])
            | bad v' ↦ λ g. tt
          ])

  -- `parse` into a fresh target
  pub parse-Taken :
      (f : ℕ) (ss : Structs) (o : Object) (buf : Bytes) (len : ℕ)
      → IsFresh o
      → Post (Taken encode buf) (parse f ss o buf len)
  unfolding parse IsFresh
  parse-Taken zero ss o buf len h = tt
  parse-Taken (suc f) ss (object name text names rs) buf len h =
      Post-bind (Taken encode_rows buf) (Taken encode buf)
        (parse_rows (create f ss) (parse f ss) rs buf len) _
        (parse_rows-Taken (create f ss) (parse f ss) (create-IsFresh f ss) (parse-Taken f ss) rs buf
          len h)
        (elim [ parsed rs' k ↦ λ g. unfold encode in g | rejected rs' ↦ λ g. tt ])

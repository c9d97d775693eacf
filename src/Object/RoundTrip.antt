-- ===== src/Object/RoundTrip.antt =====
-- What was encoded parses back (src/objects/rssobject.cpp).
use labyrinthus.Base.{
  lt→ltb, ℕ, zero, suc, ◌+◌, ◌-◌, ◌≤◌, ◌<◌, ◌≡◌, refl, ap, ◌∙◌, Bytes, [], ◌++◌, done, ◌>>=◌, arith,
  length, append_assoc, append-nil, drop-append_self, length-append,
}
use labyrinthus.Base.Words.{int_limit, le_bytes, length-le_bytes, sub32, sub32_exact}
use labyrinthus.Object.Value.{
  Value, Rows, Objects, Object, scalar, dyn, array, nested, end, row, nil, item, object, count,
  push_back, struct_name,
}
use labyrinthus.Object.Description.{Structs}
use labyrinthus.Object.Create.{create}
use labyrinthus.Object.Encode.{size, encode, encode_rows, encode_value, encode_objects}
use labyrinthus.Object.Parse.{read, parsed, parse, parse_rows, parse_value, parse_items}
use labyrinthus.Object.Fields.{
  Reads, ReadsItems, parse_scalar-Reads, parse_dyn-Reads, header_value, parse_rows_end,
  parse_rows_row, concat, concat-push_back, concat-nil, parse_items_end, parse_items_round,
  parse_array_header,
}
use labyrinthus.Object.Shape.{
  IsSound, RowsSound, ValueSound, ItemsSound, blank, blank_rows, blank_value, normalize,
  normalize_rows, normalize_value, normalize_objects, depth, depth_rows, depth_value, depth_objects,
}
use labyrinthus.Object.Fresh.{create-blank}

mutual
  unfolding parse parse_value encode IsSound blank normalize depth

  pub parse_sound :
      (f : ℕ) (ss : Structs) (o : Object) (rest : Bytes) (len : ℕ)
      → IsSound ss o
      → depth o ≤ f
      → length (encode o) ≤ len
      → len < int_limit
      → parse f ss (blank o) (encode o ++ rest) len
        ≡ done (parsed (normalize o) (length (encode o)))
  parse_sound zero ss (object name text names rs) rest len s d h b = absurd (omega arith)
  parse_sound (suc f) ss (object name text names rs) rest len s d h b =
      rw (parse_rows-Reads f ss rs rest len s.2 (omega arith) h b)

  parse_rows-Reads :
      (f : ℕ) (ss : Structs) (rs : Rows) (rest : Bytes) (len : ℕ)
      → RowsSound ss rs
      → depth_rows rs ≤ f
      → length (encode_rows rs) ≤ len
      → len < int_limit
      → parse_rows (create f ss) (parse f ss) (blank_rows rs) (encode_rows rs ++ rest) len
        ≡ done (parsed (normalize_rows rs) (length (encode_rows rs)))
  parse_rows-Reads f ss end rest len s d h b = parse_rows_end (create f ss) (parse f ss) rest len
  parse_rows-Reads f ss (row t v rs) rest len (sv, s) d h b =
      let more = length-append (encode_value v) (encode_rows rs) in
      let (len', e, cover, small) =
        parse_value-Reads f ss t v (encode_rows rs ++ rest) len (length (encode_rows rs)) sv
          (omega arith) (omega (arith, more)) b in
      rw (append_assoc (encode_value v) (encode_rows rs) rest, more)
        (parse_rows_row (create f ss) (parse f ss) t (blank_value v) (normalize_value v)
          (blank_rows rs) (normalize_rows rs) (encode_value v ++ (encode_rows rs ++ rest))
          (encode_rows rs ++ rest) len (length (encode_value v)) len' (length (encode_rows rs)) e
          (drop-append_self (encode_value v) (encode_rows rs ++ rest))
          (parse_rows-Reads f ss rs rest len' s (omega arith) cover small))

  parse_value-Reads :
      (f : ℕ) (ss : Structs) (t : Bytes) (v : Value) (rest : Bytes) (len m : ℕ)
      → ValueSound ss t v
      → depth_value v ≤ f
      → length (encode_value v) + m ≤ len
      → len < int_limit
      → Reads
          (parse_value (create f ss) (parse f ss) t (blank_value v) (encode_value v ++ rest) len)
          (normalize_value v)
          (length (encode_value v))
          m
  parse_value-Reads f ss t (scalar s n) rest len m k d h b =
      rw (length-le_bytes (size s) n)
        (parse_scalar-Reads s 0 n rest len m (omega (arith, length-le_bytes (size s) n)) b)
  parse_value-Reads f ss t (dyn y) rest len m k d h b =
      parse_dyn-Reads [] y rest len m (omega arith) b
  parse_value-Reads f ss t (array os) rest len m (k, small, (e, named, s)) d h b =
      let (len', loop, cover, lt) =
        parse_items-Reads f ss e os nil rest (len - 4) 4 m s d (omega arith) (omega arith) in
      (
        len',
        parse_array_header (create f ss) (parse f ss) t e nil (normalize_objects os)
              (le_bytes 4 (count os)) (encode_objects os ++ rest) (count os) len
              (4 + length (encode_objects os)) len' named refl (header_value (count os) small)
              (omega arith) loop
            ∙ ap (λ n. done (read (array (normalize_objects os)) n len')) (omega arith),
        cover,
        lt,
      )
  parse_value-Reads f ss t (nested o) rest len m (k, name, s) d h b = (
    sub32 len (length (encode o)),
    rw (
      parse_sound f ss o rest len s d (omega arith) b,
      lt→ltb (length (encode o)) int_limit (omega arith),
    ),
    omega (arith, sub32_exact len (length (encode o)) (omega arith) b),
    omega arith,
  )

  parse_items-Reads :
      (f : ℕ) (ss : Structs) (e : Bytes) (os v : Objects) (rest : Bytes) (len skip m : ℕ)
      → ItemsSound ss e os
      → depth_objects os ≤ f
      → length (encode_objects os) + m ≤ len
      → len < int_limit
      → ReadsItems
          (parse_items
            (create f ss e)
            (parse f ss)
            (count os)
            (encode_objects os ++ rest)
            len
            skip
            v)
          (concat v (normalize_objects os))
          (skip + length (encode_objects os))
          m
  parse_items-Reads f ss e nil v rest len skip m s d h b = (
    len,
    rw (concat-nil v) (parse_items_end (create f ss e) (parse f ss) rest len skip v),
    omega arith,
    b,
  )
  parse_items-Reads f ss e (item o os) v rest len skip m (name, pos, so, s) d h b =
      let more = length-append (encode o) (encode_objects os) in
      let exact = sub32_exact len (length (encode o)) (omega (arith, more)) b in
      let (len', loop, cover, lt) =
        parse_items-Reads f ss e os (push_back v (normalize o)) rest (sub32 len (length (encode o)))
          (skip + length (encode o)) m s (omega arith) (omega (arith, more, exact)) (omega arith) in
      (
        len',
        rw (append_assoc (encode o) (encode_objects os) rest) (
            parse_items_round (create f ss e) (parse f ss) (count os)
              (encode o ++ (encode_objects os ++ rest)) len skip v (blank o) (normalize o)
              (length (encode o)) (omega (arith, more)) (omega (arith, more))
              (rw (← name) (create-blank f ss o so (omega arith)))
              (parse_sound f ss o (encode_objects os ++ rest) len so (omega arith)
                (omega (arith, more)) b)
            ∙ rw (drop-append_self (encode o) (encode_objects os ++ rest)) (
                loop
                ∙ rw (concat-push_back v (normalize o) (normalize_objects os)) (
                    ap
                      (λ k.
                        done (read (concat v (item (normalize o) (normalize_objects os))) k len'))
                      (omega (arith, more))))),
        cover,
        lt,
      )

-- Parsing the encoding of a sound object of a nesting within the fuel, with any bytes behind it
-- and a count of at least the encoding's length and below 2^31, into a fresh object gives the
-- object with its scalars cut to their widths, and takes exactly the bytes of the encoding.
pub parse-encode :
    (f : ℕ) (ss : Structs) (o : Object) (rest : Bytes) (len : ℕ)
    → IsSound ss o
    → depth o ≤ f
    → length (encode o) ≤ len
    → len < int_limit
    → (create f ss (struct_name o) >>= λ p. parse f ss p (encode o ++ rest) len)
      ≡ done (parsed (normalize o) (length (encode o)))
parse-encode f ss o rest len s d h b =
    rw (create-blank f ss o s d) (parse_sound f ss o rest len s d h b)

-- The same into a blank target with nothing behind it
pub parse-encode_whole :
    (f : ℕ) (ss : Structs) (o : Object)
    → IsSound ss o
    → depth o ≤ f
    → length (encode o) < int_limit
    → parse f ss (blank o) (encode o) (length (encode o))
      ≡ done (parsed (normalize o) (length (encode o)))
parse-encode_whole f ss o s d b =
    let whole = parse_sound f ss o [] (length (encode o)) s d (omega arith) b in
    rw append-nil at whole

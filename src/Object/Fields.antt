-- ===== src/Object/Fields.antt =====
-- `parse` (src/objects/rssobject.cpp) on one field whose bytes stand at the front of the buffer.
use labyrinthus.Base.{
  lt→ltb, ℕ, suc, ◌+◌, ◌-◌, ◌%◌, ◌^◌, ◌*◌, ◌≤◌, ◌<◌, ◌≡◌, refl, ap, ◌∙◌, ◌==◌, false, Bytes, ◌++◌,
  some, Run, done, arith, length, take, drop, take-append_self, drop-append_self, length-append,
  le→ltb_false,
}
use labyrinthus.Base.Words.{
  int_limit, le_bytes, le_value, length-le_bytes, le_value-le_bytes4, sub32,
}
use labyrinthus.Object.Value.{
  Scalar, int, word, char, Value, Rows, Objects, Object, scalar, dyn, array, end, row, nil, item,
  push_back, elem_name,
}
use labyrinthus.Object.Encode.{size}
use labyrinthus.Object.Parse.{
  Parsed, Step, read, parsed, widen, len_after, parse_rows, parse_value, parse_scalar, parse_dyn,
  parse_array, parse_items,
}

-- The encoding of a field of known length in front of the rest
take_field : (b rest : Bytes) (n : ℕ) → length b ≡ n → take n (b ++ rest) ≡ b
take_field b rest n e = rw (← e) (take-append_self b rest)

drop_field : (b rest : Bytes) (n : ℕ) → length b ≡ n → drop n (b ++ rest) ≡ rest
drop_field b rest n e = rw (← e) (drop-append_self b rest)

le_value-le_bytes : (s : Scalar) (n : ℕ) → le_value (le_bytes (size s) n) ≡ n % 2 ^ (8 * size s)
le_value-le_bytes int n = omega arith
le_value-le_bytes word n = omega arith
le_value-le_bytes char n = omega arith

len_after_bounds :
    (s : Scalar) (len m : ℕ) → size s + m ≤ len → (m ≤ len_after s len) × (len_after s len ≤ len)
len_after_bounds int len m h = omega arith
len_after_bounds word len m h = omega arith
len_after_bounds char len m h = omega arith

-- A row was read as `v` and `k` bytes, and `len` still covers the rest.
abbrev pub Reads : Run (Step Value) → Value → ℕ → ℕ → Type 0
Reads r v k m = (len : ℕ) × (r ≡ done (read v k len)) × (m ≤ len) × (len < int_limit)

pub parse_scalar-Reads :
    (s : Scalar) (old n : ℕ) (rest : Bytes) (len m : ℕ)
    → size s + m ≤ len
    → len < int_limit
    → Reads
        (parse_scalar s old (le_bytes (size s) n ++ rest) len)
        (scalar s (widen s (n % 2 ^ (8 * size s))))
        (size s)
        m
unfolding parse_scalar
parse_scalar-Reads s old n rest len m h b = (
  len_after s len,
  rw (
    le→ltb_false len (size s) (omega arith),
    length-append (le_bytes (size s) n) rest,
    length-le_bytes (size s) n,
    le→ltb_false (size s + length rest) (size s) (omega arith),
    take_field (le_bytes (size s) n) rest (size s) (length-le_bytes (size s) n),
    le_value-le_bytes s n,
  ),
  (len_after_bounds s len m h).0,
  omega (arith, (len_after_bounds s len m h).1),
)

-- A four byte count in front of what it counts
pub header_value : (n : ℕ) → n < int_limit → le_value (le_bytes 4 n) ≡ n
header_value n h = omega (arith, le_value-le_bytes4 n)

parse_dyn_header :
    (old hd b rest : Bytes) (len : ℕ)
    → length hd ≡ 4
    → le_value hd ≡ length b
    → 4 + length b ≤ len
    → parse_dyn old (hd ++ (b ++ rest)) len
      ≡ done (read (dyn b) (4 + length b) (len - 4 - length b))
unfolding parse_dyn
parse_dyn_header old hd b rest len e v h = rw (
  take_field hd (b ++ rest) 4 e,
  drop_field hd (b ++ rest) 4 e,
  v,
  le→ltb_false len 4 (omega arith),
  length-append hd (b ++ rest),
  e,
  length-append b rest,
  le→ltb_false (4 + (length b + length rest)) 4 (omega arith),
  le→ltb_false (len - 4) (length b) (omega arith),
  le→ltb_false (4 + (length b + length rest) - 4) (length b) (omega arith),
  take-append_self b rest,
)

pub parse_dyn-Reads :
    (old b rest : Bytes) (len m : ℕ)
    → 4 + length b + m ≤ len
    → len < int_limit
    → Reads
        (parse_dyn old ((le_bytes 4 (length b) ++ b) ++ rest) len)
        (dyn b)
        (length (le_bytes 4 (length b) ++ b))
        m
parse_dyn-Reads old b rest len m h lt = (
  len - 4 - length b,
  parse_dyn_header old (le_bytes 4 (length b)) b rest len refl
        (header_value (length b) (omega arith)) (omega arith)
      ∙ ap (λ k. done (read (dyn b) k (len - 4 - length b))) (omega arith),
  omega arith,
  omega arith,
)

pub parse_rows_end :
    (new : Bytes → Run Object) (sub : Object → Bytes → ℕ → Run (Parsed Object)) (buf : Bytes)
    (len : ℕ)
    → parse_rows new sub end buf len ≡ done (parsed end 0)
unfolding parse_rows
parse_rows_end new sub buf len = refl

-- A row that reads, in front of rows that parse
pub parse_rows_row :
    (new : Bytes → Run Object) (sub : Object → Bytes → ℕ → Run (Parsed Object)) (t : Bytes)
    (v v' : Value) (rs rs' : Rows) (buf buf' : Bytes) (len k len' m : ℕ)
    → parse_value new sub t v buf len ≡ done (read v' k len')
    → drop k buf ≡ buf'
    → parse_rows new sub rs buf' len' ≡ done (parsed rs' m)
    → parse_rows new sub (row t v rs) buf len ≡ done (parsed (row t v' rs') (k + m))
unfolding parse_rows
parse_rows_row new sub t v v' rs rs' buf buf' len k len' m first at rest =
    rw (first, parse_rows) (rw (at, rest))

-- The elements of an array behind those that it holds
abbrev pub concat : Objects → Objects → Objects
concat nil os = os
concat (item a v) os = item a (concat v os)

pub concat-push_back :
    (v : Objects) (o : Object) (os : Objects) → concat (push_back v o) os ≡ concat v (item o os)
concat-push_back nil o os = refl
concat-push_back (item a v) o os = ap (item a) (concat-push_back v o os)

pub concat-nil : (v : Objects) → concat v nil ≡ v
concat-nil nil = refl
concat-nil (item a v) = ap (item a) (concat-nil v)

-- The loop took all elements, and counted their bytes.
abbrev pub ReadsItems : Run (Step Objects) → Objects → ℕ → ℕ → Type 0
ReadsItems r v k m = (len : ℕ) × (r ≡ done (read v k len)) × (m ≤ len) × (len < int_limit)

pub parse_items_end :
    (new : Run Object) (sub : Object → Bytes → ℕ → Run (Parsed Object)) (buf : Bytes) (len skip : ℕ)
    (v : Objects)
    → parse_items new sub 0 buf len skip v ≡ done (read v (skip + 0) len)
unfolding parse_items
parse_items_end new sub buf len skip v = ap (λ k. done (read v k len)) (omega arith)

pos→ne_zero : (n : ℕ) → 0 < n → (n == 0) ≡ false
pos→ne_zero n h = ground arith

-- One round of the loop on an element that parses
pub parse_items_round :
    (new : Run Object) (sub : Object → Bytes → ℕ → Run (Parsed Object)) (left : ℕ) (buf : Bytes)
    (len skip : ℕ) (v : Objects) (o o' : Object) (ll : ℕ)
    → 0 < len
    → ll < int_limit
    → new ≡ done o
    → sub o buf len ≡ done (parsed o' ll)
    → parse_items new sub (suc left) buf len skip v
      ≡ parse_items new sub left (drop ll buf) (sub32 len ll) (skip + ll) (push_back v o')
unfolding parse_items
parse_items_round new sub left buf len skip v o o' ll h small made e =
    rw (pos→ne_zero len h, parse_items, made, e, lt→ltb ll int_limit small)

pub parse_array_header :
    (new : Bytes → Run Object) (sub : Object → Bytes → ℕ → Run (Parsed Object)) (t e : Bytes)
    (old v : Objects) (hd buf : Bytes) (n len k len' : ℕ)
    → elem_name t ≡ some e
    → length hd ≡ 4
    → le_value hd ≡ n
    → 4 ≤ len
    → parse_items (new e) sub n buf (len - 4) 4 old ≡ done (read v k len')
    → parse_array new sub t old (hd ++ buf) len ≡ done (read (array v) k len')
unfolding parse_array
parse_array_header new sub t e old v hd buf n len k len' named four val h loop = rw (
  take_field hd buf 4 four,
  drop_field hd buf 4 four,
  val,
  le→ltb_false len 4 h,
  length-append hd buf,
  four,
  le→ltb_false (4 + length buf) 4 (omega arith),
  named,
  loop,
)

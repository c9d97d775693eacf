-- ===== src/Object/Copies.antt =====
-- `copy`, `assign` and `compare` (src/objects/rssobject.cpp), which all go through the wire format.
use labyrinthus.Base.{
  ℕ, suc, ◌+◌, ◌≤◌, ◌<◌, ◌≡◌, refl, ap, ◌↔◌, some, true, false, done, exited, arith, length,
  bytes_eq_refl, bytes_eq→eq,
}
use labyrinthus.Base.Words.{int_limit, sign_extend32_bytes}
use labyrinthus.Object.Value.{
  int, word, char, Value, Rows, Objects, Object, scalar, dyn, array, nested, end, row, nil, item,
  object, description, struct_name, count,
}
use labyrinthus.Object.Description.{Structs, find_description}
use labyrinthus.Object.Encode.{encode, encode_rows, encode_value, encode_objects}
use labyrinthus.Object.Access.{compare_type, compare, copy, assign}
use labyrinthus.Object.Shape.{
  IsSound, blank, normalize, normalize_rows, normalize_value, normalize_objects, depth,
}
use labyrinthus.Object.Fresh.{create-blank, clear-blank}
use labyrinthus.Object.RoundTrip.{parse-encode_whole}

-- copy of a sound object, of a nesting within the fuel and with an encoding below 2^31 bytes,
-- returns the object with its scalars cut to the widths of their types; it is never NULL.
pub copy-normalize :
    (f : ℕ) (ss : Structs) (o : Object)
    → IsSound ss o
    → depth o ≤ f
    → length (encode o) < int_limit
    → copy f ss o ≡ done (some (normalize o))
unfolding copy
copy-normalize f ss o s d b = rw (create-blank f ss o s d, parse-encode_whole f ss o s d b)

mutual
  unfolding encode normalize

  encode-normalize_object : (o : Object) → encode (normalize o) ≡ encode o
  encode-normalize_object (object name text names rs) = encode-normalize_rows rs

  encode-normalize_rows : (rs : Rows) → encode_rows (normalize_rows rs) ≡ encode_rows rs
  encode-normalize_rows end = refl
  encode-normalize_rows (row t v rs) = rw (encode-normalize_value v, encode-normalize_rows rs)

  encode-normalize_value : (v : Value) → encode_value (normalize_value v) ≡ encode_value v
  encode-normalize_value (scalar int n) = sign_extend32_bytes n
  encode-normalize_value (scalar word n) = ground arith
  encode-normalize_value (scalar char n) = ground arith
  encode-normalize_value (dyn b) = refl
  encode-normalize_value (array os) = rw (count-normalize os, encode-normalize_objects os)
  encode-normalize_value (nested o) = encode-normalize_object o

  encode-normalize_objects :
      (os : Objects) → encode_objects (normalize_objects os) ≡ encode_objects os
  encode-normalize_objects nil = refl
  encode-normalize_objects (item o os) = rw (encode-normalize_object o, encode-normalize_objects os)

  count-normalize : (os : Objects) → count (normalize_objects os) ≡ count os
  count-normalize nil = refl
  count-normalize (item o os) = ap suc (count-normalize os)

-- What goes over the wire is the object with its scalars cut.
pub encode-normalize : (o : Object) → encode (normalize o) ≡ encode o
encode-normalize o = encode-normalize_object o

found :
    (ss : Structs) (o : Object)
    → IsSound ss o
    → find_description ss (struct_name o) ≡ some (description o)
unfolding IsSound
found ss (object name text names rs) s = s.0

-- Two sound objects of one struct have one description, and are allocated alike.
module _ (ss : Structs) (a b : Object) (sa : IsSound ss a) (sb : IsSound ss b) where
  description_unique : struct_name a ≡ struct_name b → description a ≡ description b
  description_unique e = cc (found ss a sa, found ss b sb, ap (find_description ss) e)

  blank_unique : struct_name a ≡ struct_name b → blank a ≡ blank b
  blank_unique e =
      let f = depth a + depth b in
      cc (create-blank f ss a sa (omega arith), create-blank f ss b sb (omega arith))

same_type :
    (ss : Structs) (a b : Object)
    → IsSound ss a
    → IsSound ss b
    → struct_name a ≡ struct_name b
    → compare_type a b ≡ true
unfolding compare_type
same_type ss a b sa sb e = rw (description_unique ss a b sa sb e) (bytes_eq_refl (description b))

-- Between two sound objects of one struct, of a nesting within the fuel, and with an encoding of
-- the source below 2^31 bytes, assign succeeds, and leaves the source with its scalars cut to the
-- widths of their types, whatever the target held.
pub assign-normalize :
    (f : ℕ) (ss : Structs) (o from : Object)
    → IsSound ss o
    → IsSound ss from
    → struct_name o ≡ struct_name from
    → depth o ≤ f
    → depth from ≤ f
    → length (encode from) < int_limit
    → assign f ss o from ≡ done (normalize from, true)
unfolding assign
assign-normalize f ss o from so sf e d df b = rw (
  same_type ss o from so sf e,
  clear-blank f ss o so d,
  blank_unique ss o from so sf e,
  parse-encode_whole f ss from sf df b,
)

pub assign_other_type :
    (f : ℕ) (ss : Structs) (o from : Object)
    → compare_type o from ≡ false
    → assign f ss o from ≡ exited
unfolding assign
assign_other_type f ss o from h = rw h

-- For two sound objects of one struct whose encodings are below 2^31 bytes, compare is true
-- exactly when the objects agree after their scalars are cut to the widths of their types.
pub compare_iff :
    (ss : Structs) (a b : Object)
    → IsSound ss a
    → IsSound ss b
    → struct_name a ≡ struct_name b
    → length (encode a) < int_limit
    → length (encode b) < int_limit
    → (compare a b ≡ true) ↔ (normalize a ≡ normalize b)
unfolding compare
compare_iff ss a b sa sb e ba bb = (
  λ h.
      let f = depth a + depth b in
      cc (
        bytes_eq→eq (encode b) (encode a) (rw (same_type ss a b sa sb e) at h),
        blank_unique ss a b sa sb e,
        parse-encode_whole f ss a sa (omega arith) ba,
        parse-encode_whole f ss b sb (omega arith) bb,
      ),
  λ h.
      rw (same_type ss a b sa sb e, ← encode-normalize a, ← encode-normalize b, h)
        (bytes_eq_refl (encode (normalize b))),
)

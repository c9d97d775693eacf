-- ===== src/Defines/Safe.antt =====
-- The struct table (src/common/rs_defines.cpp) against the object code.
use labyrinthus.Base.{
  inl, inr, Bool-cases, Run, done, exited, fault, out_of_fuel, false, ℕ, ◌≤◌, ◌<◌, ◌≡◌, ◌≢◌, refl,
  Bytes, [], ◌∷◌, Bool, true, ◌&&◌, ◌||◌, some, arith, length, bytes_eq, bytes_eq→eq, codes,
}
use labyrinthus.Base.Words.{int_limit}
use labyrinthus.Object.Value.{kind_of, description, object, elem_name, Object, struct_name}
use labyrinthus.Object.Description.{Structs, find_description, split_description}
use labyrinthus.Object.Create.{create}
use labyrinthus.Object.Parse.{parse}
use labyrinthus.Object.Typed.{IsTyped, Named}
use labyrinthus.Object.Safety.{safe_struct, safe_types, safe_type, safe_last, Sure, Within}
use labyrinthus.Object.Safety.Total.{parse_total, Ends, Ends-Post}
use labyrinthus.Object.Typed.Kept.{create-IsTyped}
use labyrinthus.Defines.Table.{structs, nesting, create_rss_object_with_type}

-- A test of every name in the table
check_names : (Bytes → Bool) → Structs → Bool
check_names p [] = true
check_names p ((n, _) ∷ ss) = p n && check_names p ss

check_names_sound :
    (p : Bytes → Bool) (ss : Structs) (n : Bytes) {text : Bytes}
    → check_names p ss ≡ true
    → find_description ss n ≡ some text
    → p n ≡ true
unfolding check_names find_description
check_names_sound p [] n h e = cc
check_names_sound p ((m, t) ∷ ss) n h e = elim (Bool-cases (bytes_eq m n)) [
  | inl same ↦ rw (← bytes_eq→eq m n same) (both h).0
  | inr other ↦ check_names_sound p ss n (both h).1 (rw other at e)
]
  where
    both : (p m && check_names p ss) ≡ true → (p m ≡ true) × (check_names p ss ≡ true)
    both g = ground arith

sound_name : Bytes → Bool
sound_name n = bytes_eq n (codes "getDevicesResponse") || safe_struct nesting structs n

all_sound : check_names sound_name structs ≡ true
unfolding check_names sound_name structs safe_struct find_description split_description safe_types
    safe_type safe_last kind_of elem_name
all_sound = refl

creates : Bytes → Bool
creates n = elim (create nesting structs n) [ done _ ↦ true | _ ↦ false ]

all_created : check_names creates structs ≡ true
unfolding check_names creates structs create
all_created = refl

creates→Ends : (r : Run Object) → elim r [ done _ ↦ true | _ ↦ false ] ≡ true → Ends r
creates→Ends (done o) h = tt
creates→Ends exited h = absurd (cc)
creates→Ends fault h = absurd (cc)
creates→Ends out_of_fuel h = absurd (cc)

-- For every name that the table defines, createRSSObjectWithType returns an object of that struct,
-- with values of the forms that its type texts name: no description has a syntax error or names an
-- undefined struct, and none nests itself.
pub create_defined :
    (n : Bytes) {text : Bytes}
    → find_description structs n ≡ some text
    → Sure (Named structs n) (create_rss_object_with_type n)
unfolding create_rss_object_with_type creates
create_defined n e =
    Ends-Post (Named structs n) (create nesting structs n)
      (creates→Ends (create nesting structs n) (check_names_sound creates structs n all_created e))
      (create-IsTyped nesting structs n)

-- Of the structs in the table all but getDevicesResponse are safe to parse.
pub safe_defined :
    (n : Bytes) {text : Bytes}
    → find_description structs n ≡ some text
    → n ≢ codes "getDevicesResponse"
    → safe_struct nesting structs n ≡ true
unfolding sound_name
safe_defined n e other = elim (Bool-cases (bytes_eq n (codes "getDevicesResponse"))) [
  | inl same ↦ absurd (other (bytes_eq→eq n _ same))
  | inr diff ↦ rw diff at (check_names_sound sound_name structs n all_sound e)
]

found :
    (ss : Structs) (o : Object)
    → IsTyped ss o
    → find_description ss (struct_name o) ≡ some (description o)
unfolding IsTyped
found ss (object name text names rs) h = h.0

pub parse_defined :
    (o : Object) (buf : Bytes) (len : ℕ)
    → IsTyped structs o
    → struct_name o ≢ codes "getDevicesResponse"
    → len ≤ length buf
    → len < int_limit
    → Sure (Within len) (parse nesting structs o buf len)
parse_defined o buf len ty other h lt =
    parse_total nesting structs o buf len ty
      (safe_defined (struct_name o) (found structs o ty) other) h lt

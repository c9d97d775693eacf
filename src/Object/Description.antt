-- ===== src/Object/Description.antt =====
-- The struct table and the texts of its entries: the constructor's two loops
-- (src/objects/rssobject.cpp, RSSObject::RSSObject).
use labyrinthus.Base.{
  ℕ, zero, suc, ◌+◌, ◌-◌, Bytes, List, [], ◌∷◌, ◌++◌, Option, some, none, ◌||◌, ◌==◌, ltb, bytes_eq,
  length, take, drop, get_or, if◌then◌else◌,
}

-- The array of name and text pairs, up to the NULL entry.
abbrev pub Structs : Type 0
Structs = List (Bytes × Bytes)

unfoldable pub find_description : Structs → Bytes → Option Bytes
find_description [] name = none
find_description ((n, text) ∷ ss) name =
    if bytes_eq n name then some text else find_description ss name

-- `struct_types` and `struct_names`
pub record Layout : Type 0 where
  pub types : List Bytes
  pub names : List Bytes

abbrev push_type : Layout → Bytes → Layout
push_type l t = record l { types = l.types ++ (t ∷ []) }

abbrev push_name : Layout → Bytes → Layout
push_name l n = record l { names = l.names ++ (n ∷ []) }

-- The loop over `a`, with `left` rounds to go; the byte behind the text is its NUL. `none` is the
-- exit with a syntax error, which is taken when `a - fromlen` is negative.
unfoldable pub split_loop : ℕ → Bytes → ℕ → ℕ → Layout → Option Layout
split_loop zero text a fromlen l = some l
split_loop (suc left) text a fromlen l =
    let c = get_or text a 0 in
    let field = take (a - fromlen) (drop fromlen text) in
    let typed = split_loop left text (a + 1) (a + 1) (push_type l field) in
    let named = split_loop left text (a + 1) (a + 1) (push_name l field) in
    let more = split_loop left text (a + 1) fromlen l in
    if c == b' '
    then (if ltb a fromlen then none else typed)
    else if c == b',' || c == 0
    then (if ltb a fromlen then none else named)
    else more

unfoldable pub split_description : Bytes → Option Layout
unfolding split_loop
split_description text = split_loop (length text + 1) text 0 0 (record { types = []; names = [] })

-- ===== src/Defines/Forms.antt =====
-- What the objects of a struct look like, if their values have the forms that its types name
-- (src/objects/rssobject.cpp, src/common/rs_defines.cpp).
use labyrinthus.Base.{codes, ap, [], ap, [], codes, ℕ, ◌≡◌, refl, Bytes, List, ◌∷◌, some}
use labyrinthus.Object.Value.{
  Value, char, Scalar, Kind, Rows, Object, scalar, dyn, array, nested, end, row, object, kind_of,
  types_of, struct_name,
}
use labyrinthus.Object.Description.{Structs, find_description, split_description, Layout}
use labyrinthus.Object.Typed.{IsTyped, RowsTyped}
use labyrinthus.Defines.Objects.{address, packet, encrypted_packet, chain_row, get_chains_response}
use labyrinthus.Defines.Table.{structs}

-- A first row of a known type
pub scalar_row :
    (ss : Structs) (s : Scalar) (t : Bytes) (ts : List Bytes) (rs : Rows)
    → kind_of t ≡ Kind.scalar s
    → types_of rs ≡ t ∷ ts
    → RowsTyped ss rs
    → (n : ℕ) × (rest : Rows) × (rs ≡ row t (scalar s n) rest)
      × (types_of rest ≡ ts)
      × RowsTyped ss rest
unfolding IsTyped
scalar_row ss s t ts end k e h = cc
scalar_row ss s t ts (row t' (scalar s' n) rest) k e (hv, h) = (n, rest, cc, cc, h)
scalar_row ss s t ts (row t' (dyn b) rest) k e (hv, h) = cc
scalar_row ss s t ts (row t' (array os) rest) k e ((hv, _), h) = cc
scalar_row ss s t ts (row t' (nested o) rest) k e ((hv, _, _), h) = cc

pub dyn_row :
    (ss : Structs) (t : Bytes) (ts : List Bytes) (rs : Rows)
    → kind_of t ≡ Kind.dyn
    → types_of rs ≡ t ∷ ts
    → RowsTyped ss rs
    → (b : Bytes) × (rest : Rows) × (rs ≡ row t (dyn b) rest)
      × (types_of rest ≡ ts)
      × RowsTyped ss rest
unfolding IsTyped
dyn_row ss t ts end k e h = cc
dyn_row ss t ts (row t' (scalar s' n) rest) k e (hv, h) = cc
dyn_row ss t ts (row t' (dyn b) rest) k e (hv, h) = (b, rest, cc, cc, h)
dyn_row ss t ts (row t' (array os) rest) k e ((hv, _), h) = cc
dyn_row ss t ts (row t' (nested o) rest) k e ((hv, _, _), h) = cc

pub nested_row :
    (ss : Structs) (t : Bytes) (ts : List Bytes) (rs : Rows)
    → kind_of t ≡ Kind.nested
    → types_of rs ≡ t ∷ ts
    → RowsTyped ss rs
    → (o : Object) × (rest : Rows) × (rs ≡ row t (nested o) rest)
      × (struct_name o ≡ t)
      × IsTyped ss o
      × (types_of rest ≡ ts)
      × RowsTyped ss rest
unfolding IsTyped
nested_row ss t ts end k e h = cc
nested_row ss t ts (row t' (scalar s' n) rest) k e (hv, h) = cc
nested_row ss t ts (row t' (dyn b) rest) k e (hv, h) = cc
nested_row ss t ts (row t' (array os) rest) k e ((hv, _), h) = cc
nested_row ss t ts (row t' (nested o) rest) k e ((hv, named, typed), h) =
    (o, rest, cc, cc, typed, cc, h)

pub no_row : (ss : Structs) (rs : Rows) → types_of rs ≡ [] → rs ≡ end
no_row ss end e = refl
no_row ss (row t v rest) e = cc

abbrev pub layout : List Bytes → List Bytes → Layout
layout types names = record { types = types; names = names }

-- The parts of an object of a struct of the table
pub laid_out :
    (o : Object) (n text : Bytes) (l : Layout)
    → struct_name o ≡ n
    → find_description structs n ≡ some text
    → split_description text ≡ some l
    → IsTyped structs o
    → (rs : Rows) × (o ≡ object n text l.names rs) × (types_of rs ≡ l.types) × RowsTyped structs rs
unfolding IsTyped
laid_out (object name text' names rs) n text l e found split (found', split', h) =
    let same : text' ≡ text = cc in
    let whole : some (layout (types_of rs) names) ≡ some l = cc in
    let laid : layout (types_of rs) names ≡ l = cc in (rs, cc, ap (λ x. x.types) laid, h)

pub row_then :
    {t : Bytes} {v w : Value} {rs rest rest' : Rows}
    → rs ≡ row t v rest
    → v ≡ w
    → rest ≡ rest'
    → rs ≡ row t w rest'
row_then e h k = cc

pub object_then :
    {o : Object} {n text : Bytes} {names : List Bytes} {rs rs' : Rows}
    → o ≡ object n text names rs
    → rs ≡ rs'
    → o ≡ object n text names rs'
object_then e h = cc

-- A char and a string
char_dyn :
    (rs : Rows)
    → types_of rs ≡ codes "char" ∷ codes "dyn" ∷ []
    → RowsTyped structs rs
    → (n : ℕ) × (b : Bytes) × (rs
        ≡ row (codes "char") (scalar char n) (row (codes "dyn") (dyn b) end))
unfolding kind_of
char_dyn rs types h =
    let (n, rs₁, e₁, types₁, hs₁) = scalar_row structs char _ _ rs refl types h in
    let (b, rs₂, e₂, types₂, hs₂) = dyn_row structs _ _ rs₁ refl types₁ hs₁ in
    (n, b, row_then e₁ refl (row_then e₂ refl (no_row structs rs₂ types₂)))

pub address_form :
    (o : Object)
    → struct_name o ≡ codes "address_t"
    → IsTyped structs o
    → (t : ℕ) × (a : Bytes) × (o ≡ address t a)
unfolding structs find_description split_description
address_form o e h =
    let (rs, whole, types, hs) = laid_out o _ _ _ e refl refl h in
    let (t, a, form) = char_dyn rs types hs in (t, a, object_then whole form)

encrypted_packet_form :
    (o : Object)
    → struct_name o ≡ codes "encrypted_packet_t"
    → IsTyped structs o
    → (m : ℕ) × (p : Bytes) × (o ≡ encrypted_packet m p)
unfolding structs find_description split_description
encrypted_packet_form o e h =
    let (rs, whole, types, hs) = laid_out o _ _ _ e refl refl h in
    let (m, p, form) = char_dyn rs types hs in (m, p, object_then whole form)

pub layer_form :
    (o : Object)
    → struct_name o ≡ codes "chain_row"
    → IsTyped structs o
    → (t : ℕ) × (a : Bytes) × (m : ℕ) × (p : Bytes) × (o
        ≡ chain_row (address t a) (encrypted_packet m p))
unfolding structs find_description split_description kind_of
layer_form o e h =
    let (rs, whole, types, hs) = laid_out o _ _ _ e refl refl h in
    let (ad, rs₁, e₁, n₁, h₁, types₁, hs₁) = nested_row structs _ _ rs refl types hs in
    let (pa, rs₂, e₂, n₂, h₂, types₂, hs₂) = nested_row structs _ _ rs₁ refl types₁ hs₁ in
    let (t, a, form₁) = address_form ad n₁ h₁ in
    let (m, p, form₂) = encrypted_packet_form pa n₂ h₂ in
    (
      t,
      a,
      m,
      p,
      object_then whole (
          row_then e₁ (ap nested form₁)
            (row_then e₂ (ap nested form₂) (no_row structs rs₂ types₂))),
    )

pub packet_form :
    (o : Object)
    → struct_name o ≡ codes "packet_t"
    → IsTyped structs o
    → (c : ℕ) × (p : Bytes) × (o ≡ packet c p)
unfolding structs find_description split_description
packet_form o e h =
    let (rs, whole, types, hs) = laid_out o _ _ _ e refl refl h in
    let (c, p, form) = char_dyn rs types hs in (c, p, object_then whole form)

pub get_chains_response_form :
    (o : Object)
    → struct_name o ≡ codes "getChainsResponse"
    → IsTyped structs o
    → (status : ℕ) × (key : Bytes) × (method t : ℕ) × (name : Bytes) × (u : ℕ) × (a : Bytes)
      × (m : ℕ) × (p : Bytes) × (o
          ≡ get_chains_response status key method
              (address t name)
              (chain_row (address u a) (encrypted_packet m p)))
unfolding structs find_description split_description kind_of
get_chains_response_form o e h =
    let (rs, whole, types, hs) = laid_out o _ _ _ e refl refl h in
    let (status, rs₁, e₁, types₁, hs₁) = scalar_row structs char _ _ rs refl types hs in
    let (key, rs₂, e₂, types₂, hs₂) = dyn_row structs _ _ rs₁ refl types₁ hs₁ in
    let (method, rs₃, e₃, types₃, hs₃) = scalar_row structs char _ _ rs₂ refl types₂ hs₂ in
    let (ad, rs₄, e₄, n₄, h₄, types₄, hs₄) = nested_row structs _ _ rs₃ refl types₃ hs₃ in
    let (ch, rs₅, e₅, n₅, h₅, types₅, hs₅) = nested_row structs _ _ rs₄ refl types₄ hs₄ in
    let (t, name, form₁) = address_form ad n₄ h₄ in
    let (u, a, m, p, form₂) = layer_form ch n₅ h₅ in
    (
      status,
      key,
      method,
      t,
      name,
      u,
      a,
      m,
      p,
      object_then whole (
          row_then e₁ refl (
            row_then e₂ refl (
              row_then e₃ refl (
                row_then e₄ (ap nested form₁)
                  (row_then e₅ (ap nested form₂) (no_row structs rs₅ types₅)))))),
    )

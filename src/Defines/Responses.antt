-- ===== src/Defines/Responses.antt =====
-- The form of the responses of a status and an address (src/common/rs_defines.cpp).
use labyrinthus.Base.{ℕ, ◌≡◌, refl, ap, codes, Bytes, [], ◌∷◌}
use labyrinthus.Object.Value.{
  Object, Rows, char, scalar, nested, row, end, kind_of, struct_name, types_of,
}
use labyrinthus.Object.Description.{find_description, split_description}
use labyrinthus.Object.Typed.{IsTyped, RowsTyped}
use labyrinthus.Defines.Table.{structs}
use labyrinthus.Defines.Objects.{address, set_chains_response, device_connect_response}
use labyrinthus.Defines.Forms.{
  laid_out, scalar_row, nested_row, no_row, row_then, object_then, address_form,
}

status_address :
    (rs : Rows)
    → types_of rs ≡ codes "char" ∷ codes "address_t" ∷ []
    → RowsTyped structs rs
    → (n t : ℕ) × (a : Bytes) × (rs
        ≡ row (codes "char") (scalar char n) (row (codes "address_t") (nested (address t a)) end))
unfolding kind_of
status_address rs types h =
    let (n, rs₁, e₁, types₁, hs₁) = scalar_row structs char _ _ rs refl types h in
    let (o, rs₂, e₂, n₂, h₂, types₂, hs₂) = nested_row structs _ _ rs₁ refl types₁ hs₁ in
    let (t, a, form) = address_form o n₂ h₂ in
    (n, t, a, row_then e₁ refl (row_then e₂ (ap nested form) (no_row structs rs₂ types₂)))

pub set_chains_response_form :
    (o : Object)
    → struct_name o ≡ codes "setChainsResponse"
    → IsTyped structs o
    → (status t : ℕ) × (a : Bytes) × (o ≡ set_chains_response status (address t a))
unfolding structs find_description split_description
set_chains_response_form o e h =
    let (rs, whole, types, hs) = laid_out o _ _ _ e refl refl h in
    let (n, t, a, form) = status_address rs types hs in (n, t, a, object_then whole form)

pub device_connect_response_form :
    (o : Object)
    → struct_name o ≡ codes "onDeviceConnectResponse"
    → IsTyped structs o
    → (status t : ℕ) × (a : Bytes) × (o ≡ device_connect_response status (address t a))
unfolding structs find_description split_description
device_connect_response_form o e h =
    let (rs, whole, types, hs) = laid_out o _ _ _ e refl refl h in
    let (n, t, a, form) = status_address rs types hs in (n, t, a, object_then whole form)

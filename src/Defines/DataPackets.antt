-- ===== src/Defines/DataPackets.antt =====
-- The form of the packets with data (src/common/rs_defines.cpp).
use labyrinthus.Base.{ℕ, ◌≡◌, refl, ap, codes, Bytes}
use labyrinthus.Object.Value.{Object, char, nested, struct_name, kind_of}
use labyrinthus.Object.Description.{find_description, split_description}
use labyrinthus.Object.Typed.{IsTyped}
use labyrinthus.Defines.Table.{structs}
use labyrinthus.Defines.Objects.{address, chain_row, encrypted_packet, data_packet, client_data}
use labyrinthus.Defines.Forms.{
  laid_out, scalar_row, dyn_row, nested_row, no_row, row_then, object_then, address_form,
  layer_form,
}

pub data_packet_form :
    (o : Object)
    → struct_name o ≡ codes "data_packet_t"
    → IsTyped structs o
    → (t : ℕ) × (a : Bytes) × (m : ℕ) × (p payload : Bytes) × (o
        ≡ data_packet (chain_row (address t a) (encrypted_packet m p)) payload)
unfolding structs find_description split_description kind_of
data_packet_form o e h =
    let (rs, whole, types, hs) = laid_out o _ _ _ e refl refl h in
    let (ch, rs₁, e₁, n₁, h₁, types₁, hs₁) = nested_row structs _ _ rs refl types hs in
    let (payload, rs₂, e₂, types₂, hs₂) = dyn_row structs _ _ rs₁ refl types₁ hs₁ in
    let (t, a, m, p, form) = layer_form ch n₁ h₁ in
    (
      t,
      a,
      m,
      p,
      payload,
      object_then whole
          (row_then e₁ (ap nested form) (row_then e₂ refl (no_row structs rs₂ types₂))),
    )

pub client_data_form :
    (o : Object)
    → struct_name o ≡ codes "data_packet_encrypted_data"
    → IsTyped structs o
    → (t : ℕ) × (a d : Bytes) × (proto : ℕ) × (o ≡ client_data (address t a) d proto)
unfolding structs find_description split_description kind_of
client_data_form o e h =
    let (rs, whole, types, hs) = laid_out o _ _ _ e refl refl h in
    let (ad, rs₁, e₁, n₁, h₁, types₁, hs₁) = nested_row structs _ _ rs refl types hs in
    let (d, rs₂, e₂, types₂, hs₂) = dyn_row structs _ _ rs₁ refl types₁ hs₁ in
    let (proto, rs₃, e₃, types₃, hs₃) = scalar_row structs char _ _ rs₂ refl types₂ hs₂ in
    let (t, a, form) = address_form ad n₁ h₁ in
    (
      t,
      a,
      d,
      proto,
      object_then whole (
          row_then e₁ (ap nested form)
            (row_then e₂ refl (row_then e₃ refl (no_row structs rs₃ types₃)))),
    )

-- ===== src/Defines/Objects.antt =====
-- Objects of the structs of src/common/rs_defines.cpp, by their fields.
use labyrinthus.Base.{ℕ, ◌<◌, refl, length, Bytes, [], ◌∷◌, codes}
use labyrinthus.Base.Words.{int_limit}
use labyrinthus.Object.Shape.{IsSound, ItemsSound}
use labyrinthus.Object.Description.{find_description, split_description}
use labyrinthus.Defines.Table.{structs}
use labyrinthus.Object.Value.{
  Objects, count, kind_of, elem_name, Object, object, scalar, dyn, array, nested, row, end, char,
  int,
}

abbrev pub address : ℕ → Bytes → Object
address type addr =
    object (codes "address_t") (codes "char type,dyn address") (codes "type" ∷ codes "address" ∷ [])
      (row (codes "char") (scalar char type) (row (codes "dyn") (dyn addr) end))

abbrev pub encrypted_packet : ℕ → Bytes → Object
encrypted_packet method packet =
    object (codes "encrypted_packet_t") (codes "char encryption_method,dyn data")
      (codes "encryption_method" ∷ codes "data" ∷ [])
      (row (codes "char") (scalar char method) (row (codes "dyn") (dyn packet) end))

abbrev pub chain_row : Object → Object → Object
chain_row addr packet =
    object (codes "chain_row") (codes "address_t address,encrypted_packet_t matreshka")
      (codes "address" ∷ codes "matreshka" ∷ [])
      (row (codes "address_t") (nested addr) (row (codes "encrypted_packet_t") (nested packet) end))

abbrev pub chains : Objects → Object
chains os =
    object (codes "chains_t") (codes "chain_row[] chain") (codes "chain" ∷ [])
      (row (codes "chain_row[]") (array os) end)

-- The device count is a negative int.
abbrev pub devices_response : ℕ → Objects → Object
devices_response count os =
    object (codes "getDevicesResponse") (codes "int device_count,address_t[] devices")
      (codes "device_count" ∷ codes "devices" ∷ [])
      (row (codes "int") (scalar int count) (row (codes "address_t[]") (array os) end))

abbrev pub packet : ℕ → Bytes → Object
packet cmd payload =
    object (codes "packet_t") (codes "char cmd,dyn data") (codes "cmd" ∷ codes "data" ∷ [])
      (row (codes "char") (scalar char cmd) (row (codes "dyn") (dyn payload) end))

abbrev pub data_packet : Object → Bytes → Object
data_packet chain encrypted =
    object (codes "data_packet_t") (codes "chain_row chain,dyn encrypted_data")
      (codes "chain" ∷ codes "encrypted_data" ∷ [])
      (row (codes "chain_row") (nested chain) (row (codes "dyn") (dyn encrypted) end))

-- data_packet_encrypted_data: where an answer goes, the data, the protocol
abbrev pub client_data : Object → Bytes → ℕ → Object
client_data return_address packet proto =
    object (codes "data_packet_encrypted_data")
      (codes "address_t return_address,dyn data,char ip_protocol")
      (codes "return_address" ∷ codes "data" ∷ codes "ip_protocol" ∷ [])
      (row (codes "address_t") (nested return_address)
        (row (codes "dyn") (dyn packet) (row (codes "char") (scalar char proto) end)))

abbrev pub get_chains_request : Object → Object
get_chains_request addr =
    object (codes "getChainsRequest") (codes "address_t address") (codes "address" ∷ [])
      (row (codes "address_t") (nested addr) end)

-- setChainsResponse
abbrev pub set_chains_response : ℕ → Object → Object
set_chains_response status addr =
    object (codes "setChainsResponse") (codes "char status,address_t address")
      (codes "status" ∷ codes "address" ∷ [])
      (row (codes "char") (scalar char status) (row (codes "address_t") (nested addr) end))

-- onDeviceConnectResponse
abbrev pub device_connect_response : ℕ → Object → Object
device_connect_response status addr =
    object (codes "onDeviceConnectResponse") (codes "char status,address_t you_address")
      (codes "status" ∷ codes "you_address" ∷ [])
      (row (codes "char") (scalar char status) (row (codes "address_t") (nested addr) end))

-- getChainsResponse
abbrev pub get_chains_response : ℕ → Bytes → ℕ → Object → Object → Object
get_chains_response status key method addr chain =
    object (codes "getChainsResponse")
      (codes "char status,dyn traffic_key,char encryption_method,address_t address,chain_row chain")
      (codes "status"
        ∷ codes "traffic_key"
        ∷ codes "encryption_method"
        ∷ codes "address"
        ∷ codes "chain"
        ∷ [])
      (row (codes "char") (scalar char status) (
        row (codes "dyn") (dyn key) (
          row (codes "char") (scalar char method)
            (row (codes "address_t") (nested addr) (row (codes "chain_row") (nested chain) end)))))

-- They are objects of the table's structs.
pub address-IsSound : (t : ℕ) (a : Bytes) → length a < int_limit → IsSound structs (address t a)
unfolding IsSound structs find_description split_description kind_of
address-IsSound t a h = (refl, refl, (refl, ((refl, h), tt)))

pub encrypted_packet-IsSound :
    (m : ℕ) (p : Bytes) → length p < int_limit → IsSound structs (encrypted_packet m p)
unfolding IsSound structs find_description split_description kind_of
encrypted_packet-IsSound m p h = (refl, refl, (refl, ((refl, h), tt)))

pub packet-IsSound : (c : ℕ) (p : Bytes) → length p < int_limit → IsSound structs (packet c p)
unfolding IsSound structs find_description split_description kind_of
packet-IsSound c p h = (refl, refl, (refl, ((refl, h), tt)))

pub chain_row-IsSound :
    (t : ℕ) (a : Bytes) (m : ℕ) (p : Bytes)
    → length a < int_limit
    → length p < int_limit
    → IsSound structs (chain_row (address t a) (encrypted_packet m p))
unfolding IsSound structs find_description split_description kind_of
chain_row-IsSound t a m p ha hp = (
  refl,
  refl,
  ((refl, refl, address-IsSound t a ha), ((refl, refl, encrypted_packet-IsSound m p hp), tt)),
)

pub devices_response-IsSound :
    (n : ℕ) (os : Objects)
    → count os < int_limit
    → ItemsSound structs (codes "address_t") os
    → IsSound structs (devices_response n os)
unfolding IsSound structs find_description split_description kind_of elem_name
devices_response-IsSound n os small h =
    (refl, refl, (refl, ((refl, small, (codes "address_t", refl, h)), tt)))

pub client_data-IsSound :
    (t : ℕ) (a payload : Bytes) (proto : ℕ)
    → length a < int_limit
    → length payload < int_limit
    → IsSound structs (client_data (address t a) payload proto)
unfolding IsSound structs find_description split_description kind_of
client_data-IsSound t a payload proto ha hp =
    (refl, refl, ((refl, refl, address-IsSound t a ha), ((refl, hp), (refl, tt))))

pub get_chains_response-IsSound :
    (status : ℕ) (key : Bytes) (method t : ℕ) (a : Bytes) (u : ℕ) (b : Bytes) (m : ℕ) (p : Bytes)
    → length key < int_limit
    → length a < int_limit
    → length b < int_limit
    → length p < int_limit
    → IsSound structs (
        get_chains_response status key method
          (address t a)
          (chain_row (address u b) (encrypted_packet m p)))
unfolding IsSound structs find_description split_description kind_of
get_chains_response-IsSound status key method t a u b m p hk ha hb hp = (
  refl,
  refl,
  (
    refl,
    (
      (refl, hk),
      (
        refl,
        ((refl, refl, address-IsSound t a ha), ((refl, refl, chain_row-IsSound u b m p hb hp), tt)),
      ),
    ),
  ),
)

-- ===== src/Defines/Table.antt =====
-- The enumerations, the constants and the struct table (src/common/rs_defines.h, rs_defines.cpp).
use labyrinthus.Base.{ℕ, Bytes, [], ◌∷◌, Run, codes}
use labyrinthus.Object.Value.{Object}
use labyrinthus.Object.Description.{Structs}
use labyrinthus.Object.Create.{create}

abbrev pub rs_communication_port : ℕ
rs_communication_port = 7778

abbrev pub users_subnet_major : ℕ
users_subnet_major = 192

abbrev pub users_subnet_minor : ℕ
users_subnet_minor = 254

abbrev pub chains_subnet_major : ℕ
chains_subnet_major = 192

-- RS_HOST, 199.0.0.1, as `inet_addr` stores it
abbrev pub rs_host : Bytes
rs_host = 199 ∷ 0 ∷ 0 ∷ 1 ∷ []

-- RS_GETCHAINS_RESPONSE_OK and RS_ONDEVICECONNECT_RESPONSE_OK
abbrev pub response_ok : ℕ
response_ok = 1

unfoldable pub structs : Structs
structs =
    (codes "address_t", codes "char type,dyn address")
    ∷ (codes "getChainsRequest", codes "address_t address")
    ∷ (
      codes "getChainsResponse",
      codes "char status,dyn traffic_key,char encryption_method,address_t address,chain_row chain",
    )
    ∷ (
      codes "setChainsRequest",
      codes
          "address_t address,dyn traffic_key,char encryption_method,chains_t chains,dyn signed_chains_data",
    )
    ∷ (codes "setChainsResponse", codes "char status,address_t address")
    ∷ (codes "onDeviceConnectRequest", codes "int transmission_rate")
    ∷ (codes "onDeviceConnectResponse", codes "char status,address_t you_address")
    ∷ (
      codes "getDevicesRequest",
      codes "word min_transmission_rate,word max_transmission_rate,int max_count",
    )
    ∷ (codes "getDevicesResponse", codes "int device_count,address_t[] devices")
    ∷ (codes "packet_t", codes "char cmd,dyn data")
    ∷ (codes "getPublicKeysOfDevice", codes "dyn traffic_key,dyn address_key")
    ∷ (codes "chains_t", codes "chain_row[] chain")
    ∷ (codes "chain_row", codes "address_t address,encrypted_packet_t matreshka")
    ∷ (codes "encrypted_packet_t", codes "char encryption_method,dyn data")
    ∷ (codes "data_packet_t", codes "chain_row chain,dyn encrypted_data")
    ∷ (
      codes "data_packet_encrypted_data",
      codes "address_t return_address,dyn data,char ip_protocol",
    )
    ∷ []

-- The deepest struct, setChainsRequest, nests four deep: its chains_t holds chain_row, that
-- address_t.
abbrev pub nesting : ℕ
nesting = 4

-- `createRSSObjectWithType`, and `new RSSObject(getDefinedStructs(), name)`
unfoldable pub create_rss_object_with_type : Bytes → Run Object
create_rss_object_with_type name = create nesting structs name

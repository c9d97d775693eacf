-- ===== src/Tests/Wire.antt =====
-- The object code at concrete inputs.
use labyrinthus.Object.Reverse.{IsByte, encode-parse}
use labyrinthus.Object.Delete.{delete_object, blocks, left_in, delete_object-parse}
use labyrinthus.Base.{take, All}
use labyrinthus.Object.Parse.{rejected}
use labyrinthus.Base.{
  ◌-◌, ◌^◌, ℕ, ◌≡◌, refl, Bytes, [], ◌∷◌, ◌++◌, ◌>>=◌, ◌↔◌, done, fault, some, true, arith, length,
  codes,
}
use labyrinthus.Object.Value.{Objects, Object, nil, item, struct_name, kind_of}
use labyrinthus.Object.Description.{find_description, split_description}
use labyrinthus.Object.Create.{create}
use labyrinthus.Object.Encode.{encode}
use labyrinthus.Object.Parse.{parse, parsed}
use labyrinthus.Object.Dump.{print_dump, redacted, decimal}
use labyrinthus.Object.Names.{set_uint_object-access}
use labyrinthus.Object.Access.{
  uint_object_by_name, value_by_name, set_uint_object_by_name, copy, assign, compare,
}
use labyrinthus.Object.Shape.{IsSound, normalize, depth}
use labyrinthus.Object.RoundTrip.{parse-encode}
use labyrinthus.Object.Copies.{copy-normalize, assign-normalize, compare_iff}
use labyrinthus.Object.Typed.{IsTyped, Post, Target, Named}
use labyrinthus.Object.Typed.Kept.{create-IsTyped}
use labyrinthus.Object.Safety.{Sure}
use labyrinthus.Object.Safety.Overread.{parse_overread}
use labyrinthus.Defines.Table.{structs, nesting, create_rss_object_with_type}
use labyrinthus.Defines.Bounds.{Counted, create-parse-Counted, parse-Target}
use labyrinthus.Defines.Safe.{create_defined}
use labyrinthus.Defines.Objects.{
  address, devices_response, address-IsSound, devices_response-IsSound,
}

-- Two devices; the count is a negative int, and the second type does not fit its byte.
abbrev two_devices : Objects
two_devices = item (address 1 (10 ∷ 0 ∷ 0 ∷ 1 ∷ [])) (item (address 257 []) nil)

abbrev sample : Object
sample = devices_response (2 ^ 64 - 1) two_devices

sample-IsSound : IsSound structs sample
unfolding IsSound encode
sample-IsSound = devices_response-IsSound (2 ^ 64 - 1) two_devices (omega arith) (
  refl,
  omega arith,
  address-IsSound 1 (10 ∷ 0 ∷ 0 ∷ 1 ∷ []) (omega arith),
  (refl, omega arith, address-IsSound 257 [] (omega arith), tt),
)

sample_bytes :
    encode sample
    ≡ 255 ∷ 255 ∷ 255 ∷ 255 ∷ 2 ∷ 0 ∷ 0 ∷ 0 ∷ 1 ∷ 4 ∷ 0 ∷ 0 ∷ 0 ∷ 10 ∷ 0 ∷ 0 ∷ 1 ∷ 1 ∷ 0 ∷ 0 ∷ 0 ∷ 0
      ∷ []
unfolding encode
sample_bytes = refl

parse-encode_example :
    (create 4 structs (struct_name sample) >>= λ p.
    parse 4 structs p (encode sample ++ (7 ∷ [])) 27)
    ≡ done (parsed (normalize sample) (length (encode sample)))
unfolding depth encode
parse-encode_example =
    parse-encode 4 structs sample (7 ∷ []) 27 sample-IsSound (omega arith) (omega arith)
      (omega arith)

copy-normalize_example : copy 4 structs sample ≡ done (some (normalize sample))
unfolding depth encode
copy-normalize_example = copy-normalize 4 structs sample sample-IsSound (omega arith) (omega arith)

abbrev target : Object
target = devices_response 5 (item (address 3 (codes "old")) nil)

target-IsSound : IsSound structs target
unfolding IsSound encode
target-IsSound =
    devices_response-IsSound 5 (item (address 3 (codes "old")) nil) (omega arith)
      (refl, omega arith, address-IsSound 3 (codes "old") (omega arith), tt)

assign-normalize_example : assign 4 structs target sample ≡ done (normalize sample, true)
unfolding depth encode
assign-normalize_example =
    assign-normalize 4 structs target sample target-IsSound sample-IsSound refl (omega arith)
      (omega arith) (omega arith)

compare_iff_example : (compare target sample ≡ true) ↔ (normalize target ≡ normalize sample)
unfolding encode
compare_iff_example =
    compare_iff structs target sample target-IsSound sample-IsSound refl (omega arith) (omega arith)

-- Only the part of the type that fits a byte is compared.
compare_wide : compare (address 1 []) (address 257 []) ≡ true
unfolding compare
compare_wide = refl

address-IsTyped : (t : ℕ) (a : Bytes) → IsTyped structs (address t a)
unfolding IsTyped structs find_description split_description kind_of
address-IsTyped t a = (refl, refl, (refl, (refl, tt)))

create-IsTyped_example :
    Post (Named structs (codes "chains_t")) (create 4 structs (codes "chains_t"))
create-IsTyped_example = create-IsTyped 4 structs (codes "chains_t")

-- Three bytes of a buffer of five: the type is taken, then there is no length.
parse-Target_example :
    Sure
      (Target (Named structs (codes "address_t")) 3)
      (parse nesting structs (address 9 []) (1 ∷ 5 ∷ 0 ∷ 0 ∷ 0 ∷ []) 3)
parse-Target_example =
    parse-Target (address 9 []) (1 ∷ 5 ∷ 0 ∷ 0 ∷ 0 ∷ []) 3 (address-IsTyped 9 []) (λ e. cc)
      (omega arith) (omega arith)

create_defined_example :
    Sure
      (Named structs (codes "setChainsRequest"))
      (create_rss_object_with_type (codes "setChainsRequest"))
unfolding structs find_description
create_defined_example = create_defined (codes "setChainsRequest") refl

-- A getDevicesResponse that ends behind its int
parse_overread_example : parse 4 structs (devices_response 0 nil) (0 ∷ 0 ∷ 0 ∷ 0 ∷ []) 4 ≡ fault
parse_overread_example =
    parse_overread 3 structs _ _ _ _ _ 0 _ _ (0 ∷ 0 ∷ 0 ∷ 0 ∷ []) tt (omega arith) (omega arith)

type_written :
    set_uint_object_by_name (address 1 (8 ∷ [])) (codes "type") 7 ≡ done (address 7 (8 ∷ []))
unfolding set_uint_object_by_name
type_written = refl

set_uint_object-access_example :
    (uint_object_by_name (address 7 (8 ∷ [])) (codes "type") ≡ done 7)
    × (value_by_name (address 7 (8 ∷ [])) (codes "address")
        ≡ value_by_name (address 1 (8 ∷ [])) (codes "address"))
set_uint_object-access_example =
    set_uint_object-access (address 1 (8 ∷ [])) (address 7 (8 ∷ [])) (codes "type")
      (codes "address") 7 type_written (λ e. cc)

same_but_strings : redacted (address 1 (1 ∷ 2 ∷ [])) ≡ redacted (address 1 (7 ∷ 8 ∷ []))
unfolding redacted
same_but_strings = refl

dump_text :
    print_dump (codes "> ") (address 12 (1 ∷ 2 ∷ []))
    ≡ done (
        9 ∷ (codes "> char type = 12" ++ (10 ∷ 9 ∷ (codes "> dyn address = DATA[2]" ++ (10 ∷ [])))))
unfolding print_dump decimal
dump_text = refl

-- An address, and bytes behind it
abbrev address_bytes : Bytes
address_bytes = 1 ∷ 2 ∷ 0 ∷ 0 ∷ 0 ∷ 65 ∷ 66 ∷ 9 ∷ []

parsed_address :
    parse 4 structs (address 0 []) address_bytes 8 ≡ done (parsed (address 1 (65 ∷ 66 ∷ [])) 7)
unfolding parse structs create labyrinthus.Object.Parse.parse_rows
    labyrinthus.Object.Parse.parse_value labyrinthus.Object.Parse.parse_scalar
    labyrinthus.Object.Parse.parse_dyn
parsed_address = refl

new_address : create 4 structs (codes "address_t") ≡ done (address 0 [])
unfolding create structs
new_address = refl

create-parse-Counted_example : Sure (Counted 7) (
    create_rss_object_with_type (codes "address_t") >>= λ o.
    parse nesting structs o address_bytes 7)
unfolding structs find_description
create-parse-Counted_example =
    create-parse-Counted (codes "address_t") address_bytes 7 refl (λ e. cc) (omega arith)
      (omega arith)

address_bytes-IsByte : All IsByte address_bytes
address_bytes-IsByte = (
  omega arith,
  (
    omega arith,
    (omega arith, (omega arith, (omega arith, (omega arith, (omega arith, (omega arith, tt)))))),
  ),
)

encode-parse_example : encode (address 1 (65 ∷ 66 ∷ [])) ≡ take 7 address_bytes
encode-parse_example =
    encode-parse 4 structs (codes "address_t") (address 0 []) (address 1 (65 ∷ 66 ∷ []))
      address_bytes 8 7 new_address address_bytes-IsByte parsed_address

-- Refused behind the type
refused_address : parse 4 structs (address 0 []) (1 ∷ 2 ∷ []) 2 ≡ done (rejected (address 1 []))
unfolding parse structs create labyrinthus.Object.Parse.parse_rows
    labyrinthus.Object.Parse.parse_value labyrinthus.Object.Parse.parse_scalar
    labyrinthus.Object.Parse.parse_dyn
refused_address = refl

delete_object-parse_example :
    delete_object (left_in (rejected (address 1 [])))
    ≡ done (blocks (left_in (rejected (address 1 []))))
delete_object-parse_example =
    delete_object-parse 4 structs (codes "address_t") (address 0 []) (1 ∷ 2 ∷ []) 2
      (rejected (address 1 [])) new_address refused_address

-- An empty string, two types, two names, four strings and the object
address_blocks : blocks (address 1 []) ≡ 10
unfolding blocks
address_blocks = refl

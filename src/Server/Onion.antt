-- ===== src/Server/Onion.antt =====
-- How a chain is built from a route (src/apps/RSServerCommunication.cpp): layer by layer, each
-- holding the encoding of the last. The source encrypts nothing yet.
use labyrinthus.Base.{
  ℕ, ◌-◌, ◌%◌, Bytes, List, [], ◌∷◌, ◌++◌, Option, some, none, Run, done, fault, ◌>>=◌, ltb, length,
  take, codes, get_elem?, if◌then◌else◌,
}
use labyrinthus.Object.Value.{Object, dyn, array, push_back}
use labyrinthus.Object.Encode.{encode}
use labyrinthus.Object.Access.{
  set_uint_object_by_name, dyn_object_by_name, array_object_by_name, put_value, assign,
}
use labyrinthus.Defines.Table.{structs, nesting, create_rss_object_with_type}
use labyrinthus.Defines.AddrType
use labyrinthus.Defines.Encryption
use labyrinthus.Server.State.{ClientObject, Server}
use labyrinthus.Server.Edit.{append_dyn, update_object}

-- `encrypt_data(chain, data, alghoritm)`, where `none` is NULL
unfoldable pub encrypt_data : Object → Option Bytes → ℕ → Run Object
encrypt_data chain cr alghoritm =
    set_uint_object_by_name chain (codes "encryption_method") alghoritm >>= λ c. elim cr [
      | none ↦ done c
      | some d ↦ dyn_object_by_name c (codes "data") >>= λ _. put_value c (codes "data") (dyn d)
    ]

abbrev assign_from : Object → Object → Run Object
assign_from addr a = assign nesting structs a addr >>= λ r. done r.0

abbrev encoded : Option Object → Option Bytes
encoded none = none
encoded (some o) = some (encode o)

unfoldable pub encrypt_chain_element : Object → Option Object → ℕ → Run Object
encrypt_chain_element addr old_chain_row alghoritm = do
  r ← create_rss_object_with_type (codes "chain_row")
  r' ← update_object r (codes "matreshka") (λ m. encrypt_data m (encoded old_chain_row) alghoritm)
  update_object r' (codes "address") (assign_from addr)

-- The first layer and the last are not to be encrypted.
abbrev pub method_of : List Object → Option Object → ℕ
method_of [] o = Encryption.notencrypt
method_of (a ∷ route) none = Encryption.notencrypt
method_of (a ∷ route) (some o) = Encryption.blowfish

-- The loop of `make_and_append_chain`
unfoldable pub chain_loop : List Object → Option Object → Run (Option Object)
chain_loop [] o = done o
chain_loop (addr ∷ route) o =
    encrypt_chain_element addr o (method_of route o) >>= λ o2. chain_loop route (some o2)

-- `*(in_addr*)s->data()`: a string shorter than three bytes has not four to read, its NUL included.
unfoldable pub in_addr_of : Bytes → Run Bytes
in_addr_of s = if ltb (length s) 3 then fault else done (take 4 (s ++ (0 ∷ [])))

-- `devices[rand()%(devices.size()-1)]`
unfoldable pub random_device : List Object → ℕ → Run Object
random_device devices rand =
    if ltb (length devices) 2
    then fault
    else elim (get_elem? devices (rand % (length devices - 1))) [ none ↦ fault | some o ↦ done o ]

-- An address that is printed
abbrev printed : Object → Run Bytes
printed o = dyn_object_by_name o (codes "address") >>= in_addr_of

-- `make_and_append_chain` with what its two calls of `rand` gave. A NULL `my_address` is
-- dereferenced when the route is printed, and so is the last object if there is none.
unfoldable pub make_and_append_chain : Server → ClientObject → ℕ → ℕ → Run ClientObject
make_and_append_chain s client rand₀ rand₁ = do
  a ← create_rss_object_with_type (codes "address_t")
  a' ← set_uint_object_by_name a (codes "type") AddrType.localhash
  client_obj ← append_dyn a' (codes "address") client.local_unique_identifier
  d₀ ← random_device s.devices rand₀
  d₁ ← random_device s.devices rand₁
  _ ← printed d₁
  _ ← printed d₀
  me ← elim s.my_address [ none ↦ fault | some m ↦ done m ]
  _ ← printed me
  o ← chain_loop (client_obj ∷ me ∷ d₀ ∷ d₁ ∷ []) none
  row ← elim o [ none ↦ fault | some c ↦ done c ]
  os ← array_object_by_name client.chains (codes "chain")
  chains' ← put_value client.chains (codes "chain") (array (push_back os row))
  done (record client { chains = chains' })

-- ===== src/Server/Directory.antt =====
-- The bound chains as a directory from names to addresses (src/apps/RSServerCommunication.cpp).
-- The code searches by checksum first; the directory does not know the checksum.
use labyrinthus.Base.{
  ℕ, ◌+◌, ◌<◌, ◌≡◌, refl, Bytes, Bool, true, false, List, [], ◌∷◌, Option, some, none, done, ◌==◌,
  arith, length, codes, All, Bool-cases, inl, inr, if◌then◌else◌, length-append,
}
use labyrinthus.Base.Words.{int_limit}
use labyrinthus.Object.Value.{Object}
use labyrinthus.Object.Encode.{encode}
use labyrinthus.Object.Access.{compare, object_by_name}
use labyrinthus.Object.Shape.{normalize}
use labyrinthus.Object.Copies.{compare_iff}
use labyrinthus.Defines.Table.{structs}
use labyrinthus.Defines.AddrType
use labyrinthus.Defines.Objects.{address, address-IsSound, get_chains_response}
use labyrinthus.Checksum.Crc.{get_crc}
use labyrinthus.Server.State.{Server, BindedChain}
use labyrinthus.Server.Bindings.{find_binded}
use labyrinthus.Server.Lookup.{eq_self}

-- Whether the chain is bound to the address
unfoldable pub matches : BindedChain → Object → Bool
matches bc addr = elim (object_by_name bc.get_chains_response (codes "address")) [
  | done a ↦ compare a addr
  | _ ↦ false
]

unfoldable pub resolve : List BindedChain → Object → Option Bytes
resolve [] addr = none
resolve (bc ∷ rest) addr =
    let later = resolve rest addr in if matches bc addr then some bc.binded_addr else later

-- The directory of a state
unfoldable pub directory : Server → Bytes → Option Bytes
directory s name = resolve s.binded_chains (address AddrType.domain name)

-- A kept response, and the checksum of its address with it
pub record IsIndexed (bc : BindedChain) : Type 0 where
  pub status : ℕ
  pub key : Bytes
  pub method : ℕ
  pub type : ℕ
  pub name : Bytes
  pub chain : Object
  pub short : length name + 5 < int_limit
  pub kept :
      bc.get_chains_response ≡ get_chains_response status key method (address type name) chain
  pub indexed : bc.domain_address_crc ≡ get_crc name

abbrev pub bound_addr : Option BindedChain → Option Bytes
bound_addr none = none
bound_addr (some bc) = some bc.binded_addr

pub compare_address :
    (t : ℕ) (a : Bytes) (u : ℕ) (b : Bytes)
    → length a + 5 < int_limit
    → length b + 5 < int_limit
    → compare (address t a) (address u b) ≡ true
    → a ≡ b
unfolding normalize encode
compare_address t a u b ha hb e =
    let same =
      (compare_iff structs (address t a) (address u b) (address-IsSound t a (omega arith))
          (address-IsSound u b (omega arith)) refl (omega (arith, length-append a []))
          (omega (arith, length-append b []))).0
        e in
    cc

matches_kept :
    (bc : BindedChain) (i : IsIndexed bc) (addr : Object)
    → matches bc addr ≡ compare (address i.type i.name) addr
unfolding matches object_by_name
matches_kept bc i addr = rw (i.kept) refl

kept_address :
    (bc : BindedChain) (i : IsIndexed bc)
    → object_by_name bc.get_chains_response (codes "address") ≡ done (address i.type i.name)
unfolding object_by_name
kept_address bc i = rw (i.kept) refl

-- Among chains that are indexed by the checksums of their names, the search by checksum for an
-- address of less than 2^31 - 5 bytes ends, and finds the chain that the search without the
-- checksum finds.
pub find_binded-resolve :
    (bcs : List BindedChain) (t : ℕ) (a : Bytes)
    → All IsIndexed bcs
    → length a + 5 < int_limit
    → (r : Option BindedChain) × (find_binded bcs (get_crc a) (address t a) ≡ done r)
      × (bound_addr r ≡ resolve bcs (address t a))
unfolding find_binded resolve
find_binded-resolve [] t a h short = (none, refl, refl)
find_binded-resolve (bc ∷ bcs) t a (i, h) short =
    let (r, e, same) = find_binded-resolve bcs t a h short in
    let addr : Object = address t a in
    elim (Bool-cases (compare (address i.type i.name) addr)) [
      | inl hit ↦
          let same_name = compare_address i.type i.name t a i.short short hit in
          let same_crc : (bc.domain_address_crc == get_crc a) ≡ true =
            rw (i.indexed, same_name) (eq_self (get_crc a)) in
          (some bc, rw (same_crc, kept_address bc i, hit), rw (matches_kept bc i addr, hit))
      | inr miss ↦ elim (Bool-cases (bc.domain_address_crc == get_crc a)) [
        | inl crc ↦ (r, rw (crc, kept_address bc i, miss) e, rw (matches_kept bc i addr, miss) same)
        | inr other ↦ (r, rw other e, rw (matches_kept bc i addr, miss) same)
      ]
    ]

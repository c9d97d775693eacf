-- ===== src/Server/Numbered.antt =====
-- That the addresses of the chains and clients of a reached state are of bytes
-- (src/apps/RSServerCommunication.cpp).
use labyrinthus.Base.{
  ℕ, suc, ◌≡◌, sym, ◌∙◌, Bytes, List, [], ◌∷◌, some, done, arith, All, Bool-cases, inl, inr, ◌==◌,
  bytes_eq, >>=-eq-done, codes,
}
use labyrinthus.Object.Value.{Object}
use labyrinthus.Object.Access.{object_by_name, compare}
use labyrinthus.Object.Reverse.{IsByte}
use labyrinthus.Address.Binding.{client_address}
use labyrinthus.Address.Ids.{dotted, binded_after-dotted}
use labyrinthus.Server.State.{BindedChain, ClientObject}
use labyrinthus.Server.Bindings.{find_binded}
use labyrinthus.Server.Routing.{find_client}
use labyrinthus.Server.Invariant.{IsNumbered, IsAddressed, addresses_of}
use mathlib.Core.Path.{subst}

abbrev pub ChainBytes : BindedChain → Type 0
ChainBytes bc = All IsByte bc.binded_addr

abbrev pub ClientBytes : ClientObject → Type 0
ClientBytes co = All IsByte co.local_addr

dotted-IsByte : (n : ℕ) → All IsByte (dotted n)
dotted-IsByte n = (omega arith, (omega arith, (omega arith, (omega arith, tt))))

client_address-IsByte : (i : ℕ) → All IsByte (client_address i)
unfolding client_address
client_address-IsByte i = (omega arith, (omega arith, (omega arith, (omega arith, tt))))

pub numbered_bytes : (k : ℕ) (bcs : List BindedChain) → IsNumbered k bcs → All ChainBytes bcs
numbered_bytes k [] h = tt
numbered_bytes k (bc ∷ bcs) (e, h) = (
  subst (All IsByte) (sym (e ∙ binded_after-dotted (suc k))) (dotted-IsByte _),
  numbered_bytes (suc k) bcs h,
)

pub addressed_bytes :
    (i : ℕ) (cs : List ClientObject) → IsAddressed i (addresses_of cs) → All ClientBytes cs
addressed_bytes i [] h = tt
addressed_bytes i (co ∷ cs) (e, h) =
    (subst (All IsByte) (sym e) (client_address-IsByte i), addressed_bytes (suc i) cs h)

pub find_client-All :
    (P : ClientObject → Type 0) (cs : List ClientObject) (hash : Bytes) (co : ClientObject)
    → find_client cs hash ≡ some co
    → All P cs
    → P co
unfolding find_client
find_client-All P [] hash co e h = cc
find_client-All P (c ∷ cs) hash co e (hc, h) =
    elim (Bool-cases (bytes_eq c.local_unique_identifier hash)) [
      | inl same ↦ let first : some c ≡ some co = rw same at e in subst P (cc) hc
      | inr other ↦ find_client-All P cs hash co (rw other at e) h
    ]

pub find_binded-All :
    (P : BindedChain → Type 0) (bcs : List BindedChain) (crc : ℕ) (addr : Object) (bc : BindedChain)
    → find_binded bcs crc addr ≡ done (some bc)
    → All P bcs
    → P bc
unfolding find_binded
find_binded-All P [] crc addr bc e h = cc
find_binded-All P (b ∷ bcs) crc addr bc e (hb, h) =
    elim (Bool-cases (b.domain_address_crc == crc)) [
      | inr other ↦ find_binded-All P bcs crc addr bc (rw other at e) h
      | inl same ↦
          let (a, _, q) =
            >>=-eq-done (object_by_name b.get_chains_response (codes "address")) _ (rw same at e) in
          elim (Bool-cases (compare a addr)) [
            | inl hit ↦ let first : some b ≡ some bc = cc (rw hit at q) in subst P (cc) hb
            | inr miss ↦ find_binded-All P bcs crc addr bc (rw miss at q) h
          ]
    ]

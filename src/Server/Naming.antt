-- ===== src/Server/Naming.antt =====
-- What binding a chain and answering a DNS request do to the directory of bound chains
-- (src/apps/RSServerCommunication.cpp, RSDNSServer.cpp).
use labyrinthus.Base.{
  ℕ, ◌+◌, ◌%◌, ◌<◌, ◌≡◌, refl, ap, sym, ◌∙◌, Bytes, Bool, true, List, [], ◌∷◌, ◌++◌, Option, some,
  none, done, arith, length, All, Bool-cases, Option-cases, inl, inr, bytes_eq, bytes_eq_refl,
  bytes_eq→eq, if◌then◌else◌,
}
use labyrinthus.Base.Words.{int_limit}
use labyrinthus.Object.Value.{Object}
use labyrinthus.Object.Access.{compare, object_by_name}
use labyrinthus.Defines.AddrType
use labyrinthus.Defines.Objects.{address, get_chains_response}
use labyrinthus.Checksum.Crc.{get_crc}
use labyrinthus.Server.State.{Server, BindedChain}
use labyrinthus.Base.{All-append}
use labyrinthus.Defines.Table.{response_ok}
use labyrinthus.Address.Binding.{inc_binded}
use labyrinthus.Server.Peeling.{layer}
use labyrinthus.Server.Receiver.{bind_chain}
use labyrinthus.Dns.Message.{a_record, dns_response}
use labyrinthus.Server.Requests.{on_dns_request}
use labyrinthus.Server.Resolution.{
  serves, starts_to_wait, kept_response, new_chain, with_chain, bind_chain_lem,
}
use labyrinthus.Server.Lookup.{asked_for, compare_self}
use labyrinthus.Server.Directory.{
  matches, resolve, directory, IsIndexed, compare_address, find_binded-resolve,
}

resolve-append :
    (bcs : List BindedChain) (bc : BindedChain) (addr : Object)
    → resolve (bcs ++ (bc ∷ [])) addr ≡ elim (resolve bcs addr) [
      | some ip ↦ some ip
      | none ↦ if matches bc addr then some bc.binded_addr else none
    ]
unfolding resolve
resolve-append [] bc addr = refl
resolve-append (b ∷ bcs) bc addr = elim (Bool-cases (matches b addr)) [
  | inl hit ↦ rw hit refl
  | inr miss ↦ rw miss (resolve-append bcs bc addr)
]

compare_names :
    (name q : Bytes)
    → length name + 5 < int_limit
    → length q + 5 < int_limit
    → compare (address AddrType.domain name) (address AddrType.domain q) ≡ bytes_eq name q
compare_names name q hn hq =
    elim (Bool-cases (compare (address AddrType.domain name) (address AddrType.domain q))) [
      | inl hit ↦
          rw (hit, compare_address AddrType.domain name AddrType.domain q hn hq hit)
            (sym (bytes_eq_refl q))
      | inr miss ↦ elim (Bool-cases (bytes_eq name q)) [
        | inl same ↦
            absurd
              (cc (rw (bytes_eq→eq name q same) at miss, compare_self (address AddrType.domain q)))
        | inr other ↦ rw (miss, other)
      ]
    ]

-- A directory with one more name, if it has not that name already
abbrev pub extend : (Bytes → Option Bytes) → Bytes → Bytes → Bytes → Option Bytes
extend names name ip q = elim (names q) [
  | some old ↦ some old
  | none ↦ if bytes_eq name q then some ip else none
]

module _ (key : Bytes) (method : ℕ) (name : Bytes) (t : ℕ) (a : Bytes) (m : ℕ) (p : Bytes)
    (small : length key + length name + length a + length p + 64 < int_limit) where
  abbrev kept_chain : Server → BindedChain
  kept_chain s = new_chain s name (kept_response key method name t a m p)

  kept_chain-IsIndexed : (s : Server) → IsIndexed (kept_chain s)
  kept_chain-IsIndexed s = record {
    status = response_ok;
    key = key;
    method = method % 256;
    type = AddrType.domain;
    name = name;
    chain = layer (t % 256) a (m % 256) p;
    short = omega arith;
    kept = refl;
    indexed = refl;
  }

  matches-kept_chain :
      (s : Server) (addr : Object)
      → matches (kept_chain s) addr ≡ compare (address AddrType.domain name) addr
  unfolding matches object_by_name
  matches-kept_chain s addr = refl

  -- Binding a chain for a name to a state whose chains are indexed succeeds, keeps the chains
  -- indexed, and makes the directory one with that name at the next address, unless it had the
  -- name already; every other name has the address that it had. The fields of the response are
  -- together smaller than 2^31 - 64 bytes, the name that is looked up than 2^31 - 5.
  pub bind_chain-extend :
      (s : Server) (q : Bytes)
      → length q + 5 < int_limit
      → All IsIndexed s.binded_chains
      → (s' : Server) × (bind_chain s
            (get_chains_response response_ok key method
              (address AddrType.domain name)
              (layer t a m p))
            (get_crc name)
          ≡ done s')
        × All IsIndexed s'.binded_chains
        × (directory s' q ≡ extend (directory s) name (inc_binded s.binded_ip) q)
  unfolding directory
  bind_chain-extend s q short h =
      let addr : Object = address AddrType.domain q in
      let with_test : Bool → Option Bytes = λ b. elim (resolve s.binded_chains addr) [
        | some ip ↦ some ip
        | none ↦ if b then some (inc_binded s.binded_ip) else none
      ] in
      (
        with_chain s name (kept_response key method name t a m p),
        bind_chain_lem key method name t a m p small s,
        All-append IsIndexed s.binded_chains (kept_chain s ∷ []) h (kept_chain-IsIndexed s, tt),
        resolve-append s.binded_chains (kept_chain s) addr
            ∙ ap with_test (matches-kept_chain s addr ∙ compare_names name q (omega arith) short),
      )

-- What a request for a name does, by the directory alone
abbrev pub answered_by : Option Bytes → Server → ℕ → Bytes → ℕ → Bytes → Bytes → Server
answered_by (some ip) s now name u sa all = record s {
  dns_sent = s.dns_sent ++ ((sa, dns_response all (some ip)) ∷ []);
}
answered_by none s now name u sa all = record s {
  rsock = asked_for s.rsock name;
  dns_requests =
      s.dns_requests
      ++ ((record {
        address_crc = get_crc name;
        sockaddr_for_response = sa;
        dns_req_unique = u;
        last_request_time = now;
        all_request = all;
        asked = address AddrType.domain name;
      })
          ∷ []);
}

-- On an open socket, with bound chains that are indexed by the checksums of their names, a request
-- for the address of a name of less than 2^31 - 64 bytes does what the directory says: a name that
-- it has is answered with its address, for another the server is asked for a chain and the request
-- waits.
pub on_dns_request-directory :
    (s : Server) (now : ℕ) (name : Bytes) (u : ℕ) (sa all : Bytes)
    → s.rsock.is_open ≡ true
    → length name + 64 < int_limit
    → All IsIndexed s.binded_chains
    → on_dns_request s now name a_record u sa all
      ≡ done (answered_by (directory s name) s now name u sa all)
unfolding directory
on_dns_request-directory s now name u sa all up short h =
    let (r, e, same) = find_binded-resolve s.binded_chains AddrType.domain name h (omega arith) in
    elim (Option-cases r) [
      | inl nothing ↦
          rw (← same, nothing)
            (starts_to_wait [] 0 name 0 [] 0 [] (omega arith) s now u sa all up
              (e ∙ ap done nothing))
      | inr (bc, found) ↦
          rw (← same, found)
            (serves [] 0 name 0 [] 0 [] (omega arith) s bc now u sa all (e ∙ ap done found))
    ]

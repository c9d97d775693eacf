-- ===== src/Server/Resolution.antt =====
-- From a DNS request over the binding of a chain to the answer (src/apps/RSDNSServer.cpp,
-- src/apps/RSServerCommunication.cpp).
use labyrinthus.Base.{
  ℕ, ◌+◌, ◌%◌, ◌<◌, ◌≡◌, refl, ◌∙◌, Bytes, true, [], ◌∷◌, ◌++◌, some, none, done, arith, length,
}
use labyrinthus.Base.Words.{int_limit}
use labyrinthus.Object.Value.{Object}
use labyrinthus.Object.Create.{create}
use labyrinthus.Object.Access.{uint_object_by_name, assign, object_by_name, dyn_object_by_name}
use labyrinthus.Defines.Table.{structs, nesting, create_rss_object_with_type, response_ok}
use labyrinthus.Defines.AddrType
use labyrinthus.Defines.Objects.{address, get_chains_response}
use labyrinthus.Checksum.Crc.{get_crc}
use labyrinthus.Address.Binding.{inc_binded}
use labyrinthus.Dns.Pending.{DnsRequests}
use labyrinthus.Dns.Message.{a_record, dns_response}
use labyrinthus.Server.State.{Server, BindedChain}
use labyrinthus.Server.Bindings.{find_binded, get_binded_chain_by_address}
use labyrinthus.Server.Requests.{send_dns_response, serve_request, on_dns_request}
use labyrinthus.Server.Receiver.{
  answer_request, on_get_chains_response, bind_chain, awaits, take_request,
}
use labyrinthus.Server.Lookup.{
  eq_self, compare_self, find_binded-append, take_request-append, asked_for, asks,
  domain_object_lem,
}
use labyrinthus.Server.Peeling.{layer}
use labyrinthus.Server.Response.{response_bytes, assigned}

-- What is kept of a response
abbrev pub kept_response : Bytes → ℕ → Bytes → ℕ → Bytes → ℕ → Bytes → Object
kept_response key method name t a m p =
    get_chains_response response_ok key (method % 256) (address AddrType.domain name)
      (layer (t % 256) a (m % 256) p)

-- The chain that is bound to a name by the next address
abbrev pub new_chain : Server → Bytes → Object → BindedChain
new_chain s name o = record {
  binded_addr = inc_binded s.binded_ip;
  domain_address_crc = get_crc name;
  get_chains_response = o;
}

abbrev pub with_chain : Server → Bytes → Object → Server
with_chain s name o = record s {
  binded_ip = inc_binded s.binded_ip;
  binded_chains = s.binded_chains ++ (new_chain s name o ∷ []);
}

module _ (key : Bytes) (method : ℕ) (name : Bytes) (t : ℕ) (a : Bytes) (m : ℕ) (p : Bytes)
    (small : length key + length name + length a + length p + 64 < int_limit) where
  abbrev pub response : Object
  response =
      get_chains_response response_ok key method (address AddrType.domain name) (layer t a m p)

  response_assigned :
      assign nesting structs (get_chains_response 0 [] 0 (address 0 []) (layer 0 [] 0 [])) response
      ≡ done (kept_response key method name t a m p, true)
  response_assigned =
      let bytes = response_bytes response_ok key method AddrType.domain name t a m p in
      assigned response_ok key method AddrType.domain name t a m p (omega (arith, bytes, small))

  pub bind_chain_lem :
      (s : Server)
      → bind_chain s response (get_crc name)
        ≡ done (with_chain s name (kept_response key method name t a m p))
  unfolding bind_chain create_rss_object_with_type structs create
  bind_chain_lem s = rw response_assigned

  -- The chain is found from then on.
  found_bound :
      (s : Server)
      → find_binded s.binded_chains (get_crc name) (address AddrType.domain name) ≡ done none
      → find_binded
          (with_chain s name (kept_response key method name t a m p)).binded_chains
          (get_crc name)
          (address AddrType.domain name)
        ≡ done (some (new_chain s name (kept_response key method name t a m p)))
  unfolding find_binded object_by_name
  found_bound s h =
      find_binded-append s.binded_chains
        (new_chain s name (kept_response key method name t a m p) ∷ []) (get_crc name)
        (address AddrType.domain name) h
      ∙ rw (eq_self (get_crc name), compare_self (address AddrType.domain name))

  -- Serving a name to which a chain is bound
  pub serves :
      (s : Server) (bc : BindedChain) (now u : ℕ) (sa all : Bytes)
      → find_binded s.binded_chains (get_crc name) (address AddrType.domain name) ≡ done (some bc)
      → on_dns_request s now name a_record u sa all
        ≡ done (record s {
          dns_sent = s.dns_sent ++ ((sa, dns_response all (some bc.binded_addr)) ∷ []);
        })
  unfolding on_dns_request serve_request get_binded_chain_by_address dyn_object_by_name
      send_dns_response
  serves s bc now u sa all bound = rw (domain_object_lem name, get_binded_chain_by_address, bound)

  abbrev pub waiting : ℕ → ℕ → Bytes → Bytes → DnsRequests
  waiting now u sa all = record {
    address_crc = get_crc name;
    sockaddr_for_response = sa;
    dns_req_unique = u;
    last_request_time = now;
    all_request = all;
    asked = address AddrType.domain name;
  }

  abbrev pub after_request : Server → ℕ → ℕ → Bytes → Bytes → Server
  after_request s now u sa all = record s {
    rsock = asked_for s.rsock name;
    dns_requests = s.dns_requests ++ (waiting now u sa all ∷ []);
  }

  pub starts_to_wait :
      (s : Server) (now u : ℕ) (sa all : Bytes)
      → s.rsock.is_open ≡ true
      → find_binded s.binded_chains (get_crc name) (address AddrType.domain name) ≡ done none
      → on_dns_request s now name a_record u sa all ≡ done (after_request s now u sa all)
  unfolding on_dns_request serve_request
  starts_to_wait s now u sa all up h = rw (domain_object_lem name, asks s name up (omega arith) h)

  is_answered :
      (s : Server) (now u : ℕ) (sa all : Bytes)
      → take_request s.dns_requests (get_crc name) (address AddrType.domain name) ≡ none
      → on_get_chains_response (after_request s now u sa all) response
        ≡ done
            (record (with_chain
              (after_request s now u sa all)
              name
              (kept_response key method name t a m p)) {
                dns_requests = s.dns_requests;
                dns_sent =
                    s.dns_sent ++ ((sa, dns_response all (some (inc_binded s.binded_ip))) ∷ []);
              })
  unfolding on_get_chains_response object_by_name dyn_object_by_name uint_object_by_name
      answer_request send_dns_response awaits
  is_answered s now u sa all h = rw (
    bind_chain_lem (after_request s now u sa all),
    answer_request,
    take_request-append s.dns_requests (waiting now u sa all) (get_crc name)
        (address AddrType.domain name) h
        (rw (eq_self (get_crc name)) (compare_self (address AddrType.domain name))),
  )

  -- A DNS request of more than twelve bytes, on an open socket, for a name that has no bound chain
  -- and that nobody waits for, and a response for the name that is smaller than 2^31 bytes:
  -- nothing is answered until the response comes; then the request is answered with the address
  -- behind the last that was bound, and waits no more, and after that another such request is
  -- answered with that address at once.
  pub request_resolves :
      (s : Server) (now u : ℕ) (sa all : Bytes) (now' u' : ℕ) (sa' all' : Bytes)
      → s.rsock.is_open ≡ true
      → find_binded s.binded_chains (get_crc name) (address AddrType.domain name) ≡ done none
      → take_request s.dns_requests (get_crc name) (address AddrType.domain name) ≡ none
      → 12 < length all
      → 12 < length all'
      → (s₁ s₂ s₃ : Server) × (on_dns_request s now name a_record u sa all ≡ done s₁)
        × (s₁.dns_sent ≡ s.dns_sent)
        × (on_get_chains_response s₁ (
              get_chains_response response_ok key method
                (address AddrType.domain name)
                (layer t a m p))
            ≡ done s₂)
        × (s₂.dns_requests ≡ s.dns_requests)
        × (s₂.dns_sent
            ≡ s.dns_sent ++ ((sa, dns_response all (some (inc_binded s.binded_ip))) ∷ []))
        × (on_dns_request s₂ now' name a_record u' sa' all' ≡ done s₃)
        × (s₃.dns_sent
            ≡ s₂.dns_sent ++ ((sa', dns_response all' (some (inc_binded s.binded_ip))) ∷ []))
  request_resolves s now u sa all now' u' sa' all' up unbound alone long long' =
      let o = kept_response key method name t a m p in
      let s₁ = after_request s now u sa all in
      let s₂ : Server = record (with_chain s₁ name o) {
        dns_requests = s.dns_requests;
        dns_sent = s.dns_sent ++ ((sa, dns_response all (some (inc_binded s.binded_ip))) ∷ []);
      } in
      (
        s₁,
        s₂,
        record s₂ {
          dns_sent = s₂.dns_sent ++ ((sa', dns_response all' (some (inc_binded s.binded_ip))) ∷ []);
        },
        starts_to_wait s now u sa all up unbound,
        refl,
        is_answered s now u sa all alone,
        refl,
        refl,
        serves s₂ (new_chain s name o) now' u' sa' all' (found_bound s unbound),
        refl,
      )

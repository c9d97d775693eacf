-- ===== src/Dns/Answer.antt =====
-- What `sendDNSResponse` (src/apps/RSDNSServer.cpp) puts on the wire, read as a DNS message.
use labyrinthus.Base.{
  ◌≤◌, drop-append_past, length-set, ℕ, ◌+◌, ◌*◌, ◌≡◌, refl, ◌∙◌, Bytes, [], ◌∷◌, some, none,
  length, take, drop, set,
}
use labyrinthus.Dns.Message.{dns_response}

-- A number in network order
abbrev pub be_value : Bytes → ℕ → ℕ
be_value [] acc = acc
be_value (b ∷ bs) acc = be_value bs (acc * 256 + b)

-- The fields of the answer section that follows a request of `n` bytes
abbrev pub answer_ttl : Bytes → ℕ → ℕ
answer_ttl response n = be_value (take 4 (drop (n + 6) response)) 0

abbrev pub answer_data : Bytes → ℕ → Bytes
answer_data response n = drop (n + 12) response

answered : Bytes → Bytes
answered request = set (set (set (set request 2 0x81) 3 0x80) 6 0) 7 1

length-answered : (request : Bytes) → length (answered request) ≡ length request
unfolding answered
length-answered request =
    length-set (set (set (set request 2 0x81) 3 0x80) 6 0) 7 1
    ∙ length-set (set (set request 2 0x81) 3 0x80) 6 0
    ∙ length-set (set request 2 0x81) 3 0x80
    ∙ length-set request 2 0x81

-- What stands `k` bytes behind the request, in a response with an address
behind_request :
    (request s_addr : Bytes) (k : ℕ)
    → drop (length request + k) (dns_response request (some s_addr))
      ≡ drop k (0xc0 ∷ 0x0c ∷ 0 ∷ 1 ∷ 0 ∷ 1 ∷ 16 ∷ 14 ∷ 0 ∷ 0 ∷ 0 ∷ 4 ∷ s_addr)
unfolding dns_response answered
behind_request request s_addr k = rw (← length-answered request) (
    drop-append_past (answered request)
      (0xc0 ∷ 0x0c ∷ 0 ∷ 1 ∷ 0 ∷ 1 ∷ 16 ∷ 14 ∷ 0 ∷ 0 ∷ 0 ∷ 4 ∷ s_addr) k)

-- A response to a request of at least eight bytes keeps the id, says no error, counts one answer
-- with an address and none without, and with an address ends in exactly that address.
pub dns_response_message :
    (i₀ i₁ f₀ f₁ q₀ q₁ n₀ n₁ : ℕ) (rest s_addr : Bytes)
    → let request = i₀ ∷ i₁ ∷ f₀ ∷ f₁ ∷ q₀ ∷ q₁ ∷ n₀ ∷ n₁ ∷ rest in
      (dns_response request none ≡ i₀ ∷ i₁ ∷ 0x81 ∷ 0x80 ∷ q₀ ∷ q₁ ∷ 0 ∷ 0 ∷ rest)
      × (take 8 (dns_response request (some s_addr)) ≡ i₀ ∷ i₁ ∷ 0x81 ∷ 0x80 ∷ q₀ ∷ q₁ ∷ 0 ∷ 1 ∷ [])
      × (answer_data (dns_response request (some s_addr)) (length request) ≡ s_addr)
unfolding dns_response
dns_response_message i₀ i₁ f₀ f₁ q₀ q₁ n₀ n₁ rest s_addr =
    (refl, refl, behind_request (i₀ ∷ i₁ ∷ f₀ ∷ f₁ ∷ q₀ ∷ q₁ ∷ n₀ ∷ n₁ ∷ rest) s_addr 12)

-- Every answer with an address, to a request of at least eight bytes, carries the time to live
-- 269352960: the 3600 of the code is written low byte first.
pub dns_response_ttl :
    (request s_addr : Bytes)
    → 8 ≤ length request
    → answer_ttl (dns_response request (some s_addr)) (length request) ≡ 269352960
dns_response_ttl request s_addr whole = rw (behind_request request s_addr 6)

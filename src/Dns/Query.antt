-- ===== src/Dns/Query.antt =====
-- The request parser of src/apps/RSDNSServer.cpp against the format of a question.
use labyrinthus.Base.{
  lt→ltb, le→ltb_false, ℕ, zero, suc, ◌+◌, ◌≤◌, ◌<◌, ◌≡◌, refl, ◌∙◌, List, Bytes, [], ◌∷◌, ◌++◌,
  some, arith, length, take, drop, append_assoc, length-append, take-append_self, drop-append_self,
  ◌==◌, ltb, Bool-cases, inl, inr, false, All, length-drop,
}
use labyrinthus.Dns.Message.{append_label, name_loop, type_of, request_of, parse_request}

-- A question's name on the wire, and as text
abbrev pub encode_labels : List Bytes → Bytes
encode_labels [] = 0 ∷ []
encode_labels (l ∷ ls) = length l ∷ (l ++ encode_labels ls)

abbrev pub join_labels : Bytes → List Bytes → Bytes
join_labels address [] = address
join_labels address (l ∷ ls) = join_labels (append_label address l) ls

pos→ne_zero : (n : ℕ) → 0 < n → (n == 0) ≡ false
pos→ne_zero n h = ground arith

name_loop-encode :
    (ls : List Bytes) (fuel : ℕ) (address rest : Bytes)
    → All (λ l. 0 < length l) ls
    → length (encode_labels ls) ≤ fuel
    → name_loop fuel (encode_labels ls ++ rest) address ≡ some (join_labels address ls, rest)
unfolding name_loop
name_loop-encode [] zero address rest h f = absurd (omega arith)
name_loop-encode (l ∷ ls) zero address rest h f = absurd (omega arith)
name_loop-encode [] (suc fuel) address rest h f = refl
name_loop-encode (l ∷ ls) (suc fuel) address rest (pos, h) f =
    rw
      (
        append_assoc l (encode_labels ls) rest,
        pos→ne_zero (length l) pos,
        length-append l (encode_labels ls ++ rest),
        le→ltb_false (length l + length (encode_labels ls ++ rest)) (length l) (omega arith),
        drop-append_self l (encode_labels ls ++ rest),
        take-append_self l (encode_labels ls ++ rest),
      )
      (name_loop-encode ls fuel (append_label address l) rest h
        (omega (arith, length-append l (encode_labels ls))))

-- With as much fuel as there are bytes, the loop over the labels of a name ends, and leaves no
-- more bytes than it got.
pub name_loop_total :
    (fuel : ℕ) (d address : Bytes)
    → length d ≤ fuel
    → (r : Bytes × Bytes) × (name_loop fuel d address ≡ some r) × (length r.1 ≤ length d)
unfolding name_loop
name_loop_total zero [] address h = ((address, []), refl, omega arith)
name_loop_total (suc fuel) [] address h = ((address, []), refl, omega arith)
name_loop_total zero (nl ∷ d) address h = absurd (omega arith)
name_loop_total (suc fuel) (nl ∷ d) address h = elim (Bool-cases (nl == 0)) [
  | inl stop ↦ ((address, d), rw stop, omega arith)
  | inr on ↦ elim (Bool-cases (ltb (length d) nl)) [
    | inl short ↦ ((address, d), rw (on, short), omega arith)
    | inr fits ↦
        let (r, e, le) =
          name_loop_total fuel (drop nl d) (append_label address (take nl d))
            (omega (arith, length-drop nl d)) in
        (r, rw (on, fits) e, omega (arith, le, length-drop nl d))
  ]
]

parse_request_steps :
    (buffer question : Bytes) (r : Bytes × Bytes)
    → 12 < length buffer
    → drop 12 buffer ≡ question
    → name_loop (length buffer) question [] ≡ some r
    → parse_request buffer ≡ request_of (some r)
unfolding parse_request
parse_request_steps buffer question r h e q = rw (lt→ltb 12 (length buffer) h, e, q)

length-join_labels :
    (address : Bytes) (ls : List Bytes) → 0 < length address → 0 < length (join_labels address ls)
length-join_labels address [] h = h
length-join_labels [] (l ∷ ls) h = absurd (omega arith)
length-join_labels (c ∷ address) (l ∷ ls) h =
    length-join_labels ((c ∷ address) ++ (b'.' ∷ l)) ls (omega arith)

request_of_name :
    (address d : Bytes)
    → 0 < length address
    → 4 ≤ length d
    → request_of (some (address, d)) ≡ some (record { address = address; dns_type = type_of d })
request_of_name [] d h k = absurd (omega arith)
request_of_name (c ∷ address) d h k = rw (le→ltb_false (length d) 4 k)

-- The parser of a DNS request behind twelve bytes of header gives the non-empty labels of the
-- question joined by dots, and the kind of its type bytes, whatever follows the class.
pub parse_request-encode :
    (header : Bytes) (l : Bytes) (ls : List Bytes) (t₀ t₁ c₀ c₁ : ℕ) (more : Bytes)
    → length header ≡ 12
    → All (λ x. 0 < length x) (l ∷ ls)
    → parse_request (header ++ (encode_labels (l ∷ ls) ++ (t₀ ∷ t₁ ∷ c₀ ∷ c₁ ∷ more)))
      ≡ some (record { address = join_labels l ls; dns_type = type_of (t₀ ∷ t₁ ∷ c₀ ∷ c₁ ∷ more) })
unfolding parse_request
parse_request-encode header l ls t₀ t₁ c₀ c₁ more twelve h =
    let tail : Bytes = t₀ ∷ t₁ ∷ c₀ ∷ c₁ ∷ more in
    let question : Bytes = encode_labels (l ∷ ls) ++ tail in
    let whole = length-append header question in
    let parts = length-append (encode_labels (l ∷ ls)) tail in
    parse_request_steps (header ++ question) question (join_labels l ls, tail)
      (omega (arith, whole, parts)) (rw (← twelve) (drop-append_self header question))
      (name_loop-encode (l ∷ ls) (length (header ++ question)) [] tail h
        (omega (arith, whole, parts)))
    ∙ request_of_name (join_labels l ls) tail (length-join_labels l ls h.0) (omega arith)

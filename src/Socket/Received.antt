-- ===== src/Socket/Received.antt =====
-- What a socket holds after it received a packet: an object of packet_t that fits the buffer
-- (src/sockets/rs_socket.cpp).
use labyrinthus.Base.{
  inr, inl, ◌==◌, Option-cases, >>=-eq-done, codes, ◌∙◌, ℕ, ◌+◌, ◌≤◌, ◌≡◌, refl, Bytes, Bool, List,
  [], ◌∷◌, Option, some, none, done, length, take, arith,
}
use labyrinthus.Object.Value.{Object, struct_name}
use labyrinthus.Object.Encode.{encode}
use labyrinthus.Object.Create.{create}
use labyrinthus.Object.Parse.{Parsed, parse, parsed, rejected}
use mathlib.Core.Path.{subst}
use labyrinthus.Socket.Total.{length-received}
use labyrinthus.Socket.Delivery.{length-packet}
use labyrinthus.Object.Access.{dyn_object_by_name}
use labyrinthus.Object.Typed.{Post-bind, Post-if, Post-self, Post, Named, Post-done, Target}
use labyrinthus.Object.Typed.Kept.{create-IsTyped, parse-IsTyped}
use labyrinthus.Object.Reverse.{length-parse}
use labyrinthus.Defines.Table.{structs, nesting, create_rss_object_with_type}
use labyrinthus.Defines.Objects.{packet}
use labyrinthus.Defines.Forms.{packet_form}
use labyrinthus.Socket.Packet.{
  Socket, Event, datagram, failed, receive_packet, receive_loop, received,
  get_last_packed_data_as_type, get_last_packet_data,
}

-- Parsing into a new object of a struct gives an object of that struct, as large as the bytes that
-- were taken.
pub new_parsed :
    (n : Bytes) (o o' : Object) (buf : Bytes) (len k : ℕ)
    → create nesting structs n ≡ done o
    → parse nesting structs o buf len ≡ done (parsed o' k)
    → Named structs n o' × (length (encode o') ≤ length buf)
new_parsed n o o' buf len k made e =
    let named =
      Post-done (Named structs n) (create nesting structs n) o (create-IsTyped nesting structs n)
        made in
    let kept =
      Post-done (Target (Named structs (struct_name o)) (length buf))
        (parse nesting structs o buf len) (parsed o' k)
        (parse-IsTyped nesting structs o buf len named.1) e in
    let size = length-parse nesting structs n o o' buf len k made e in
    ((kept.0.0 ∙ named.0, kept.0.1), omega (arith, size.0, size.1))

-- The packet, if there is one, fits a buffer of `n` bytes.
abbrev pub Holds : ℕ → Option Object → Type 0
Holds n none = Unit {0}
Holds n (some o) = (c : ℕ) × (p : Bytes) × (o ≡ packet c p) × (length p + 5 ≤ n)

abbrev pub Fits : Bool → ℕ → Socket → Type 0
Fits up n k = (k.is_open ≡ up) × (length k.buffer ≡ n) × Holds n k.rso_data

abbrev pub Leaves : Bool → ℕ → Socket × Bool × List Event → Type 0
Leaves up n r = Fits up n r.0

-- A packet that was parsed from the buffer is kept.
packet_kept :
    (o o' : Object) (buf : Bytes) (len k : ℕ)
    → create nesting structs (codes "packet_t") ≡ done o
    → parse nesting structs o buf len ≡ done (parsed o' k)
    → Holds (length buf) (some o')
unfolding encode
packet_kept o o' buf len k made e =
    let ((named, typed), size) = new_parsed (codes "packet_t") o o' buf len k made e in
    let (c, p, form) = packet_form o' named typed in
    (c, p, form, omega (arith, rw (form) at size, length-packet c p))

receive_loop-Fits :
    (up : Bool) (n : ℕ) (s : Socket) (events : List Event)
    → Fits up n s
    → Post (Leaves up n) (receive_loop s events)
unfolding receive_loop create_rss_object_with_type
receive_loop-Fits up n s [] h = tt
receive_loop-Fits up n s (failed ∷ events) h = h
receive_loop-Fits up n s (datagram sin slen payload ∷ events) h =
    let got : Socket = record s {
      sin_tmp = sin;
      slen_tmp = slen;
      buffer = received s.buffer payload;
    } in
    let whole : length got.buffer ≡ n = omega (arith, length-received s.buffer payload, h.1) in
    let again = receive_loop-Fits up n got events (h.0, whole, h.2) in
    let rr = length (take (length s.buffer) payload) in
    Post-if (Leaves up n) (rr == 0) _ _ (λ _. again)
      λ _.
        Post-bind (λ o. create nesting structs (codes "packet_t") ≡ done o) (Leaves up n)
          (create nesting structs (codes "packet_t")) _
          (Post-self (create nesting structs (codes "packet_t")))
          λ o made.
            Post-bind (λ r. parse nesting structs o got.buffer rr ≡ done r) (Leaves up n)
              (parse nesting structs o got.buffer rr) _
              (Post-self (parse nesting structs o got.buffer rr))
              (elim [
                | parsed o' k ↦ λ e. (
                  h.0,
                  whole,
                  subst (λ m. Holds m (some o')) whole (packet_kept o o' got.buffer rr k made e),
                )
                | rejected o' ↦ λ e. again
              ])

-- Whatever arrives, the buffer keeps its size, and what is received fits it.
pub receive_packet-Fits :
    (s : Socket) (events : List Event)
    → Post (Leaves s.is_open (length s.buffer)) (receive_packet s events)
unfolding receive_packet
receive_packet-Fits s events =
    Post-if (Leaves s.is_open (length s.buffer)) s.is_open _ _
      (λ _.
        receive_loop-Fits s.is_open (length s.buffer)
          (record s { rso_data = none; slen_tmp = 1024 }) events (refl, refl, tt))
      (λ _. (refl, refl, tt))

data_of :
    (c : ℕ) (p : Bytes) (o : Object) (payload : Bytes)
    → o ≡ packet c p
    → dyn_object_by_name o (codes "data") ≡ done payload
    → p ≡ payload
unfolding dyn_object_by_name
data_of c p o payload form e =
    let read : dyn_object_by_name (packet c p) (codes "data") ≡ done payload = rw (form) at e in cc

payload_fits :
    (n : ℕ) (k : Socket) (payload : Bytes)
    → Holds n k.rso_data
    → get_last_packet_data k ≡ done payload
    → length payload + 5 ≤ n
unfolding get_last_packet_data dyn_object_by_name
payload_fits n k payload h e = elim (Option-cases k.rso_data) [
  | inl nothing ↦ cc (rw (get_last_packet_data, nothing) at e)
  | inr (o, some_o) ↦
      let (c, p, form, fits) = rw (some_o) at h in
      let same = data_of c p o payload form (rw (get_last_packet_data, some_o) at e) in
      rw (← same) fits
]

unpacked_object :
    (type : Bytes) (out o : Object) (payload : Bytes) (r : Parsed Object)
    → create nesting structs type ≡ done out
    → parse nesting structs out payload (length payload) ≡ done r
    → done (elim r [ parsed o' _ ↦ some o' | rejected _ ↦ none ]) ≡ done (some o)
    → (n : ℕ) → length payload + 5 ≤ n
    → Named structs type o × (length (encode o) + 5 ≤ n)
unpacked_object type out o payload (parsed o' k) made e q n fits =
    let same : o' ≡ o = cc in
    let (named, size) = new_parsed type out o' payload (length payload) k made e in
    (rw (← same) named, rw (← same) (omega (arith, size)))
unpacked_object type out o payload (rejected o') made e q n fits = cc

-- What is unpacked from a received packet is an object of the struct that fits the buffer.
pub unpacked :
    (n : ℕ) (k : Socket) (type : Bytes) (o : Object)
    → Holds n k.rso_data
    → get_last_packed_data_as_type k type ≡ done (some o)
    → Named structs type o × (length (encode o) + 5 ≤ n)
unfolding get_last_packed_data_as_type create_rss_object_with_type
unpacked n k type o h e =
    let (payload, e₁, h₁) = >>=-eq-done (get_last_packet_data k) _ e in
    let (out, e₂, h₂) = >>=-eq-done (create nesting structs type) _ h₁ in
    let (r, e₃, h₃) = >>=-eq-done (parse nesting structs out payload (length payload)) _ h₂ in
    unpacked_object type out o payload r e₂ e₃ h₃ n (payload_fits n k payload h e₁)

-- ===== src/Defines/Bounds.antt =====
-- parse (src/objects/rssobject.cpp) on the structs of the table (src/common/rs_defines.cpp): what it
-- leaves and what it takes.
use labyrinthus.Base.{
  refl, exited, fault, out_of_fuel, done, Run, ◌∙◌, sym, ◌>>=◌, ◌<◌, ◌≤◌, some, codes, done, ◌≡◌,
  ◌≢◌, length, ℕ, Run, Bytes,
}
use labyrinthus.Base.Words.{int_limit}
use labyrinthus.Object.Value.{Object, struct_name}
use labyrinthus.Object.Encode.{encode}
use labyrinthus.Object.Description.{find_description}
use labyrinthus.Object.Parse.{parse, Parsed, parsed, rejected}
use labyrinthus.Object.Reverse.{length-parse}
use labyrinthus.Object.Safety.{Sure, Sure-bind, Sure-self, Within}
use labyrinthus.Object.Typed.{IsTyped, Named, Target, Post}
use labyrinthus.Object.Typed.Kept.{parse-IsTyped}
use labyrinthus.Defines.Table.{structs, nesting, create_rss_object_with_type}
use labyrinthus.Defines.Safe.{create_defined, parse_defined}

Sure-Post :
    {A : Type 0} (P Q R : A → Type 0) (m : Run A)
    → Sure P m
    → Post Q m
    → ((a : A) → P a → Q a → R a)
    → Sure R m
Sure-Post P Q R (done a) p q f = f a p q
Sure-Post P Q R exited p q f = p
Sure-Post P Q R fault p q f = p
Sure-Post P Q R out_of_fuel p q f = p

-- On an object of any struct in the table but getDevicesResponse, with values of the forms that
-- its type texts name, and any `len` bytes of a buffer that has as many, fewer than 2^31: parse
-- returns, leaves an object of the same struct with values of those forms, whether it accepts or
-- refuses, and has taken no more than `len` bytes when it accepts.
pub parse-Target :
    (o : Object) (buf : Bytes) (len : ℕ)
    → IsTyped structs o
    → struct_name o ≢ codes "getDevicesResponse"
    → len ≤ length buf
    → len < int_limit
    → Sure (Target (Named structs (struct_name o)) len) (parse nesting structs o buf len)
parse-Target o buf len ty other h lt =
    Sure-Post (Within len) (Target (Named structs (struct_name o)) (length buf))
      (Target (Named structs (struct_name o)) len) (parse nesting structs o buf len)
      (parse_defined o buf len ty other h lt) (parse-IsTyped nesting structs o buf len ty)
      (elim [ parsed o' k ↦ λ p q. (q.0, p) | rejected o' ↦ λ p q. q ])

-- What was taken is the encoding of what is left, and inside the `len` bytes that were given.
abbrev pub Counted : ℕ → Parsed Object → Type 0
Counted len (parsed o k) = (length (encode o) ≡ k) × (k ≤ len)
Counted len (rejected o) = Unit {0}

Counted-Within :
    (len : ℕ) (r : Run (Parsed Object))
    → ((o : Object) (k : ℕ) → r ≡ done (parsed o k) → length (encode o) ≡ k)
    → Sure (Within len) r
    → Sure (Counted len) r
Counted-Within len (done (parsed o k)) f s = (f o k refl, s)
Counted-Within len (done (rejected o)) f s = tt
Counted-Within len exited f s = s
Counted-Within len fault f s = s
Counted-Within len out_of_fuel f s = s

-- For every struct in the table but getDevicesResponse, and any `len` bytes of a buffer that has
-- as many, fewer than 2^31: an object is created and parse returns on it; when it accepts, the
-- count is the length of the object's encoding and no more than `len`.
pub create-parse-Counted :
    (n : Bytes) {text : Bytes} (buf : Bytes) (len : ℕ)
    → find_description structs n ≡ some text
    → n ≢ codes "getDevicesResponse"
    → len ≤ length buf
    → len < int_limit
    → Sure (Counted len) (create_rss_object_with_type n >>= λ o. parse nesting structs o buf len)
unfolding create_rss_object_with_type
create-parse-Counted n buf len e other h lt =
    let new = create_rss_object_with_type n in
    Sure-bind (λ o. (new ≡ done o) × Named structs n o) (Counted len) new _
      (Sure-self (Named structs n) new (create_defined n e))
      λ o (made, (named, typed)).
        Counted-Within len (parse nesting structs o buf len)
          (λ o' k p. (length-parse nesting structs n o o' buf len k made p).0)
          (parse_defined o buf len typed (λ c. other (sym named ∙ c)) h lt)

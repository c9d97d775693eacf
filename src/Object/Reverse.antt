-- ===== src/Object/Reverse.antt =====
-- The way back of the wire format: `encode` writes again the bytes that `parse` took
-- (src/objects/rssobject.cpp).
use labyrinthus.Base.{
  ℕ, zero, suc, ◌+◌, ◌*◌, ◌%◌, ◌/◌, ◌≤◌, ◌<◌, ◌≡◌, refl, ap, ◌∙◌, sym, Bytes, [], ◌∷◌, ◌++◌, done,
  length, take, drop, All, arith, length-append, length-take,
}
use labyrinthus.Base.Words.{le_bytes, le_value, length-le_bytes}
use labyrinthus.Object.Value.{Object}
use labyrinthus.Object.Description.{Structs}
use labyrinthus.Object.Create.{create}
use labyrinthus.Object.Encode.{encode}
use labyrinthus.Object.Parse.{parse, parsed}
use labyrinthus.Object.Typed.{Post-done}
use labyrinthus.Object.Taken.{Reading, IsFresh, create-IsFresh}
use labyrinthus.Object.Taken.Induction.{Taken, parse-Taken}

abbrev pub IsByte : ℕ → Type 0
IsByte b = b < 256

take-add : (j k : ℕ) (b : Bytes) → j ≤ length b → take (j + k) b ≡ take j b ++ take k (drop j b)
take-add zero k b h = ap (λ n. take n b) (omega arith)
take-add (suc j) k [] h = absurd (omega arith)
take-add (suc j) k (x ∷ b) h =
    ap (λ n. take n (x ∷ b)) (let e : suc j + k ≡ suc (j + k) = omega arith in e)
    ∙ ap (λ t. x ∷ t) (take-add j k b (omega arith))

All-drop : (j : ℕ) (b : Bytes) → All IsByte b → All IsByte (drop j b)
All-drop zero b h = h
All-drop (suc j) [] h = tt
All-drop (suc j) (x ∷ b) (hx, h) = All-drop j b h

le_bytes-le_value :
    (w : ℕ) (b : Bytes) → All IsByte b → w ≤ length b → le_bytes w (le_value (take w b)) ≡ take w b
le_bytes-le_value zero b h k = refl
le_bytes-le_value (suc w) [] h k = absurd (omega arith)
le_bytes-le_value (suc w) (x ∷ b) (hx, h) k =
    let low : (x + 256 * le_value (take w b)) % 256 ≡ x = omega arith in
    let high : (x + 256 * le_value (take w b)) / 256 ≡ le_value (take w b) = omega arith in
    rw (low, high) (ap (λ t. x ∷ t) (le_bytes-le_value w b h (omega arith)))

whole_taken : (n : ℕ) (buf : Bytes) → n ≤ length buf → length (take n buf) ≡ n
whole_taken n buf h = omega (arith, length-take n buf)

-- As many bytes are written as were taken.
abbrev counting : Reading
counting = record {
  Took = λ e k buf. length e ≡ k;
  none_taken = λ buf. refl;
  taken_next =
      λ e f j k buf h he hf. length-append e f ∙ ap (λ n. n + length f) he ∙ ap (λ n. j + n) hf;
  word_taken = λ w buf h. length-le_bytes w (le_value (take w buf));
  bytes_taken = λ n buf h. whole_taken n buf h;
}

-- From a buffer of bytes, the same bytes are written.
abbrev copying : Reading
copying = record {
  Took = λ e k buf. All IsByte buf → e ≡ take k buf;
  none_taken = λ buf h. refl;
  taken_next = λ e f j k buf h he hf bytes.
      ap (λ b. b ++ f) (he bytes)
      ∙ ap (λ b. take j buf ++ b) (hf (All-drop j buf bytes))
      ∙ sym (take-add j k buf h);
  word_taken = λ w buf h bytes. le_bytes-le_value w buf bytes h;
  bytes_taken = λ n buf h bytes. refl;
}

fresh : (f : ℕ) (ss : Structs) (n : Bytes) (o : Object) → create f ss n ≡ done o → IsFresh o
fresh f ss n o e = Post-done IsFresh (create f ss n) o (create-IsFresh f ss n) e

-- When parse accepts a buffer into a new object of any struct, the count is the length of the
-- object's encoding, and the buffer has as many bytes.
pub length-parse :
    (f : ℕ) (ss : Structs) (n : Bytes) (o o' : Object) (buf : Bytes) (len k : ℕ)
    → create f ss n ≡ done o
    → parse f ss o buf len ≡ done (parsed o' k)
    → (length (encode o') ≡ k) × (k ≤ length buf)
length-parse f ss n o o' buf len k made e =
    Post-done (Taken counting encode buf) (parse f ss o buf len) (parsed o' k)
      (parse-Taken counting f ss o buf len (fresh f ss n o made)) e

-- When parse accepts a buffer of bytes into a new object of any struct, the object's encoding is
-- the bytes that were taken, each as it came.
pub encode-parse :
    (f : ℕ) (ss : Structs) (n : Bytes) (o o' : Object) (buf : Bytes) (len k : ℕ)
    → create f ss n ≡ done o
    → All IsByte buf
    → parse f ss o buf len ≡ done (parsed o' k)
    → encode o' ≡ take k buf
encode-parse f ss n o o' buf len k made bytes e =
    (Post-done (Taken copying encode buf) (parse f ss o buf len) (parsed o' k)
        (parse-Taken copying f ss o buf len (fresh f ss n o made)) e).0
      bytes

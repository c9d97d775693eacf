-- ===== src/Object/Reuse.antt =====
-- `parse` into an object that is not fresh (src/objects/rssobject.cpp): it appends to an array, but
-- overwrites all else.
use labyrinthus.Base.{
  ◌>>=◌, drop, ℕ, zero, suc, ◌≡◌, Bytes, Run, done, >>=-eq-done, ltb, length, Bool-cases, inl, inr,
  ◌-◌, [], take,
}
use labyrinthus.Base.Words.{le_value}
use labyrinthus.Object.Value.{
  Value, Rows, Object, Scalar, scalar, dyn, array, nested, end, row, object,
}
use labyrinthus.Object.Description.{Structs}
use labyrinthus.Object.Create.{create}
use labyrinthus.Object.Encode.{size}
use labyrinthus.Object.Parse.{
  read, bad, parsed, rejected, parse, parse_rows, parse_value, parse_scalar, parse_dyn,
}
use labyrinthus.Object.Shape.{blank, blank_rows, blank_value}

unfoldable mutual
  pub IsPlain : Object → Type 0
  IsPlain (object _ _ _ rs) = PlainRows rs

  pub PlainRows : Rows → Type 0
  PlainRows end = Unit {0}
  PlainRows (row _ v rs) = PlainValue v × PlainRows rs

  pub PlainValue : Value → Type 0
  PlainValue (scalar _ _) = Unit {0}
  PlainValue (dyn _) = Unit {0}
  PlainValue (array _) = ⊥
  PlainValue (nested o) = IsPlain o

scalar_reuse :
    (s : Scalar) (a b : ℕ) (buf : Bytes) (len : ℕ) {w : Value} {k l : ℕ}
    → parse_scalar s a buf len ≡ done (read w k l)
    → parse_scalar s b buf len ≡ done (read w k l)
unfolding parse_scalar
scalar_reuse s a b buf len h = elim (Bool-cases (ltb len (size s))) [
  | inl short ↦ absurd (cc (rw short at h))
  | inr on ↦ rw on (rw on at h)
]

dyn_reuse :
    (a b buf : Bytes) (len : ℕ) {w : Value} {k l : ℕ}
    → parse_dyn a buf len ≡ done (read w k l)
    → parse_dyn b buf len ≡ done (read w k l)
unfolding parse_dyn
dyn_reuse a b buf len h = elim (Bool-cases (ltb len 4)) [
  | inl short ↦ absurd (cc (rw short at h))
  | inr on ↦ elim (Bool-cases (ltb (length buf) 4)) [
    | inl over ↦ absurd (cc (rw (on, over) at h))
    | inr here ↦ elim (Bool-cases (ltb (len - 4) (le_value (take 4 buf)))) [
      | inl less ↦ absurd (cc (rw (on, here, less) at h))
      | inr all ↦ rw (on, here, all) (rw (on, here, all) at h)
    ]
  ]
]

transfer {ℓ κ} :
    {A : Type ℓ} {B : Type κ} (m m' : Run A) (f f' : A → Run B) {b : B}
    → ((a : A) → m ≡ done a → f a ≡ done b → (m' ≡ done a) × (f' a ≡ done b))
    → (m >>= f) ≡ done b
    → (m' >>= f') ≡ done b
transfer m m' f f' same h =
    let (a, e, q) = >>=-eq-done m f h in let (e', q') = same a e q in rw e' q'

mutual
  unfolding parse parse_rows parse_value blank IsPlain

  -- What parses into a fresh object parses into a used one without arrays, with the same contents.
  pub parse_reuse :
      (f : ℕ) (ss : Structs) (o : Object) (buf : Bytes) (len : ℕ) {p : Object} {k : ℕ}
      → IsPlain o
      → parse f ss (blank o) buf len ≡ done (parsed p k)
      → parse f ss o buf len ≡ done (parsed p k)
  parse_reuse zero ss (object name text names rs) buf len plain h = absurd (cc)
  parse_reuse (suc f) ss (object name text names rs) buf len plain h =
      transfer (parse_rows (create f ss) (parse f ss) (blank_rows rs) buf len)
        (parse_rows (create f ss) (parse f ss) rs buf len) _ _
        (elim [
          | parsed rs' k' ↦ λ e q. (rows_reuse f ss rs buf len plain e, q)
          | rejected rs' ↦ λ e q. absurd (cc)
        ])
        h

  rows_reuse :
      (f : ℕ) (ss : Structs) (rs : Rows) (buf : Bytes) (len : ℕ) {p : Rows} {k : ℕ}
      → PlainRows rs
      → parse_rows (create f ss) (parse f ss) (blank_rows rs) buf len ≡ done (parsed p k)
      → parse_rows (create f ss) (parse f ss) rs buf len ≡ done (parsed p k)
  rows_reuse f ss end buf len plain h = h
  rows_reuse f ss (row t v rs) buf len plain h =
      transfer (parse_value (create f ss) (parse f ss) t (blank_value v) buf len)
        (parse_value (create f ss) (parse f ss) t v buf len) _ _
        (elim [
          | read w j len' ↦ λ e q. (
            value_reuse f ss t v buf len plain.0 e,
            transfer (parse_rows (create f ss) (parse f ss) (blank_rows rs) (drop j buf) len')
                (parse_rows (create f ss) (parse f ss) rs (drop j buf) len') _ _
                (elim [
                  | parsed rs' k' ↦ λ e' q'. (rows_reuse f ss rs (drop j buf) len' plain.1 e', q')
                  | rejected rs' ↦ λ e' q'. absurd (cc)
                ])
                q,
          )
          | bad w ↦ λ e q. absurd (cc)
        ])
        h

  value_reuse :
      (f : ℕ) (ss : Structs) (t : Bytes) (v : Value) (buf : Bytes) (len : ℕ) {w : Value} {k l : ℕ}
      → PlainValue v
      → parse_value (create f ss) (parse f ss) t (blank_value v) buf len ≡ done (read w k l)
      → parse_value (create f ss) (parse f ss) t v buf len ≡ done (read w k l)
  value_reuse f ss t (scalar s n) buf len plain h = scalar_reuse s 0 n buf len h
  value_reuse f ss t (dyn b) buf len plain h = dyn_reuse [] b buf len h
  value_reuse f ss t (array os) buf len plain h = absurd plain
  value_reuse f ss t (nested o) buf len plain h =
      transfer (parse f ss (blank o) buf len) (parse f ss o buf len) _ _
        (elim [
          | parsed o' k' ↦ λ e q. (parse_reuse f ss o buf len plain e, q)
          | rejected o' ↦ λ e q. absurd (cc)
        ])
        h

-- ===== src/Object/Names.antt =====
-- Reading behind writing, by name (src/objects/rssobject.cpp).
use labyrinthus.Base.{
  ℕ, zero, suc, ◌≡◌, ◌≢◌, refl, ap, sym, ◌∙◌, Bytes, List, [], ◌∷◌, some, done, exited, ◌>>=◌,
  >>=-eq-done, >>=-cong, Bool-cases, inl, inr, bytes_eq, bytes_eq→eq, get_elem?,
}
use labyrinthus.Object.Value.{
  Value, Rows, Object, Scalar, scalar, dyn, array, nested, end, row, object,
}
use labyrinthus.Object.Access.{
  ident_of, value_at, set_value_at, value_by_name, set_uint_object_by_name, uint_object_by_name,
}

ident_of-name :
    (ns : List Bytes) (n : Bytes) (i : ℕ) → ident_of ns n ≡ done i → get_elem? ns i ≡ some n
unfolding ident_of
ident_of-name [] n i h = cc
ident_of-name (m ∷ ns) n i h = elim (Bool-cases (bytes_eq m n)) [
  | inl same ↦ let here : 0 ≡ i = cc (rw same at h) in rw (← here, bytes_eq→eq m n same) refl
  | inr other ↦
      let (j, e, q) = >>=-eq-done (ident_of ns n) _ (rw other at h) in
      let next : suc j ≡ i = cc in rw (← next) (ident_of-name ns n j e)
]

value_at-set_same :
    (rs : Rows) (i : ℕ) (v w : Value)
    → value_at rs i ≡ done v
    → value_at (set_value_at rs i w) i ≡ done w
unfolding value_at set_value_at
value_at-set_same end i v w h = cc
value_at-set_same (row t u rs) zero v w h = refl
value_at-set_same (row t u rs) (suc i) v w h = value_at-set_same rs i v w h

value_at-set_other :
    (rs : Rows) (i j : ℕ) (w : Value) → i ≢ j → value_at (set_value_at rs i w) j ≡ value_at rs j
unfolding value_at set_value_at
value_at-set_other end i j w h = refl
value_at-set_other (row t u rs) zero zero w h = absurd (h refl)
value_at-set_other (row t u rs) zero (suc j) w h = refl
value_at-set_other (row t u rs) (suc i) zero w h = refl
value_at-set_other (row t u rs) (suc i) (suc j) w h =
    value_at-set_other rs i j w (λ e. h (ap suc e))

-- A name is found at one place only, so two names are at two.
name_inj :
    (names : List Bytes) (n m : Bytes) (i : ℕ)
    → ident_of names n ≡ done i
    → ident_of names m ≡ done i
    → n ≡ m
name_inj names n m i e h =
    let a : some n ≡ some m = ◌∙◌ (sym (ident_of-name names n i e)) (ident_of-name names m i h) in
    cc

elsewhere :
    (names : List Bytes) (rs : Rows) (i : ℕ) (n m : Bytes) (w : Value)
    → ident_of names n ≡ done i
    → n ≢ m
    → (ident_of names m >>= value_at (set_value_at rs i w)) ≡ (ident_of names m >>= value_at rs)
elsewhere names rs i n m w e other =
    >>=-cong (ident_of names m) _ _
      (λ j h. value_at-set_other rs i j w (λ same. other (name_inj names n m i e (rw (same) h))))

written :
    (names : List Bytes) (rs : Rows) (i : ℕ) (n m : Bytes) (v : Value) (w : Value)
    → ident_of names n ≡ done i
    → value_at rs i ≡ done v
    → n ≢ m
    → ((ident_of names n >>= value_at (set_value_at rs i w)) ≡ done w)
      × ((ident_of names m >>= value_at (set_value_at rs i w)) ≡ (ident_of names m >>= value_at rs))
written names rs i n m v w e e₁ other =
    (rw (e) (value_at-set_same rs i v w e₁), elsewhere names rs i n m w e other)

scalar_written :
    (sn text : Bytes) (names : List Bytes) (rs : Rows) (i val : ℕ) (v : Value) {o' : Object}
    → (elim v [
      | scalar s _ ↦ done (object sn text names (set_value_at rs i (scalar s val)))
      | _ ↦ exited
    ])
      ≡ done o'
    → (s : Scalar) × (object sn text names (set_value_at rs i (scalar s val)) ≡ o')
scalar_written sn text names rs i val (scalar s u) h = (s, cc)
scalar_written sn text names rs i val (dyn b) h = cc
scalar_written sn text names rs i val (nested p) h = cc
scalar_written sn text names rs i val (array os) h = cc

-- Two names, and a number that is written under the first: the first then reads as that number,
-- and the second reads as it did before.
pub set_uint_object-access :
    (o o' : Object) (n m : Bytes) (val : ℕ)
    → set_uint_object_by_name o n val ≡ done o'
    → n ≢ m
    → (uint_object_by_name o' n ≡ done val) × (value_by_name o' m ≡ value_by_name o m)
unfolding set_uint_object_by_name uint_object_by_name value_by_name
set_uint_object-access (object sn text names rs) o' n m val h other =
    let (i, e, h₁) = >>=-eq-done (ident_of names n) _ h in
    let (v, e₁, h₂) = >>=-eq-done (value_at rs i) _ h₁ in
    let (s, w) = scalar_written sn text names rs i val v h₂ in
    let (same, elsewhere) = written names rs i n m v (scalar s val) e e₁ other in
    rw (← w) (rw (same) refl, elsewhere)

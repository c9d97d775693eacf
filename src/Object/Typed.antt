-- ===== src/Object/Typed.antt =====
-- The class invariant of RSSObject (src/objects/rssobject.cpp): each value has the form that the
-- code casts it to, an array holds objects of its element type, whatever the bytes were.
pub mod Fields
pub mod Kept
use mathlib.Core.Path.{subst}
use labyrinthus.Base.{
  ltb_false→le, ◌-◌, Option-cases, if◌then◌else◌, ltb, take, false, true, Bool, length-drop, sym,
  ◌∙◌, drop, inr, inl, exited, fault, out_of_fuel, ◌==◌, Bool-cases, ◌+◌, ap, length, List, ◌≤◌, ℕ,
  zero, suc, ◌≡◌, refl, Bytes, [], ◌∷◌, some, Run, done, ◌>>=◌, arith,
}
use labyrinthus.Base.Words.{le_value, sub32}
use labyrinthus.Object.Value.{
  Scalar, Kind, Value, Rows, Objects, Object, scalar, dyn, array, nested, end, row, nil, item,
  object, kind_of, elem_name, struct_name, types_of, push_back,
}
use labyrinthus.Object.Description.{Structs, find_description, split_description}
use labyrinthus.Object.Create.{allocate, allocate_rows}
use labyrinthus.Object.Parse.{
  parse_scalar, parse_dyn, parse_value, parse_rows, parse_array, Parsed, Step, parsed, rejected,
  read, bad, parse_items,
}

unfoldable mutual
  pub IsTyped : Structs → Object → Type 0
  IsTyped ss (object name text names rs) =
      (find_description ss name ≡ some text)
      × (split_description text ≡ some (record { types = types_of rs; names = names }))
      × RowsTyped ss rs

  pub RowsTyped : Structs → Rows → Type 0
  RowsTyped ss end = Unit {0}
  RowsTyped ss (row t v rs) = ValueTyped ss t v × RowsTyped ss rs

  pub ValueTyped : Structs → Bytes → Value → Type 0
  ValueTyped ss t (scalar s n) = kind_of t ≡ Kind.scalar s
  ValueTyped ss t (dyn b) = kind_of t ≡ Kind.dyn
  ValueTyped ss t (array os) = (kind_of t ≡ Kind.array) × ItemsTyped ss t os
  ValueTyped ss t (nested o) = (kind_of t ≡ Kind.nested) × (struct_name o ≡ t) × IsTyped ss o

  pub ItemsTyped : Structs → Bytes → Objects → Type 0
  ItemsTyped ss t nil = Unit {0}
  ItemsTyped ss t (item o os) =
      (elem_name t ≡ some (struct_name o)) × IsTyped ss o × ItemsTyped ss t os

-- What holds of the value of a run, if it ends with one
abbrev pub Post : {A : Type 0} → (A → Type 0) → Run A → Type 0
Post P (done a) = P a
Post P exited = Unit {0}
Post P fault = Unit {0}
Post P out_of_fuel = Unit {0}

pub Post-bind :
    {A B : Type 0} (P : A → Type 0) (Q : B → Type 0) (m : Run A) (f : A → Run B)
    → Post P m
    → ((a : A) → P a → Post Q (f a))
    → Post Q (m >>= f)
Post-bind P Q (done a) f h k = k a h
Post-bind P Q exited f h k = tt
Post-bind P Q fault f h k = tt
Post-bind P Q out_of_fuel f h k = tt

pub Post-done : {A : Type 0} (P : A → Type 0) (m : Run A) (a : A) → Post P m → m ≡ done a → P a
Post-done P (done b) a h e = let same : b ≡ a = cc in subst P same h
Post-done P exited a h e = cc
Post-done P fault a h e = cc
Post-done P out_of_fuel a h e = cc

-- What a run gives is what it gives.
pub Post-self : {A : Type 0} (m : Run A) → Post (λ a. m ≡ done a) m
Post-self (done a) = refl
Post-self exited = tt
Post-self fault = tt
Post-self out_of_fuel = tt

pub Post-imp :
    {A : Type 0} (P Q : A → Type 0) (m : Run A) → Post P m → ((a : A) → P a → Q a) → Post Q m
Post-imp P Q (done a) h k = k a h
Post-imp P Q exited h k = tt
Post-imp P Q fault h k = tt
Post-imp P Q out_of_fuel h k = tt

pub Post-if :
    {A : Type 0} (P : A → Type 0) (b : Bool) (x y : Run A)
    → (b ≡ true → Post P x)
    → (b ≡ false → Post P y)
    → Post P (if b then x else y)
Post-if P true x y h k = h refl
Post-if P false x y h k = k refl

-- The target meets `P`, and no more bytes were taken than the buffer of `n` bytes holds.
abbrev pub Target : {A : Type 0} → (A → Type 0) → ℕ → Parsed A → Type 0
Target P n (parsed a k) = P a × (k ≤ n)
Target P n (rejected a) = P a

abbrev pub Left : {A : Type 0} → (A → Type 0) → ℕ → Step A → Type 0
Left P n (read a k len) = P a × (k ≤ n)
Left P n (bad a) = P a

abbrev pub Named : Structs → Bytes → Object → Type 0
Named ss n o = (struct_name o ≡ n) × IsTyped ss o

abbrev pub Listed : Structs → List Bytes → Rows → Type 0
Listed ss ts rs = (types_of rs ≡ ts) × RowsTyped ss rs

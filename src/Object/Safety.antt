-- ===== src/Object/Safety.antt =====
-- Which structs `parse` (src/objects/rssobject.cpp) reads without leaving the buffer. The branch of
-- an int does not count `len` down, so an int may only stand in the last row of a struct.
pub mod Fields
pub mod Total
pub mod Overread
use labyrinthus.Base.{
  if◌then◌else◌, ℕ, zero, suc, ◌-◌, ◌≤◌, ◌≡◌, Bytes, List, [], ◌∷◌, Bool, true, false, ◌&&◌, some,
  none, Run, done, exited, fault, out_of_fuel, ◌>>=◌, refl,
}
use labyrinthus.Object.Value.{Kind, int, word, char, kind_of, elem_name}
use labyrinthus.Object.Description.{Structs, find_description, split_description}
use labyrinthus.Object.Parse.{Parsed, Step, parsed, rejected, read, bad}

-- A type text that a row before the last may have; `safe` answers for the structs that it names.
unfoldable pub safe_type : (Bytes → Bool) → Bytes → Bool
safe_type safe t = elim (kind_of t) [
  | Kind.scalar s ↦ elim s [ int ↦ false | _ ↦ true ]
  | Kind.dyn ↦ true
  | Kind.array ↦ elim (elem_name t) [ none ↦ false | some e ↦ safe e ]
  | Kind.nested ↦ safe t
]

unfoldable pub safe_last : (Bytes → Bool) → Bytes → Bool
safe_last safe t = elim (kind_of t) [
  | Kind.scalar s ↦ true
  | Kind.dyn ↦ true
  | Kind.array ↦ elim (elem_name t) [ none ↦ false | some e ↦ safe e ]
  | Kind.nested ↦ safe t
]

unfoldable pub safe_types : (Bytes → Bool) → List Bytes → Bool
safe_types safe [] = true
safe_types safe (t ∷ []) = safe_last safe t
safe_types safe (t ∷ u ∷ ts) = safe_type safe t && safe_types safe (u ∷ ts)

-- The struct and all that it names stand in the table, nested at most `fuel` deep, and an int
-- stands in a last row only.
unfoldable pub safe_struct : ℕ → Structs → Bytes → Bool
safe_struct zero ss n = false
safe_struct (suc f) ss n = elim (find_description ss n) [
  | none ↦ false
  | some text ↦ elim (split_description text) [
    | none ↦ false
    | some l ↦ safe_types (safe_struct f ss) l.types
  ]
]

-- The run ends with a value, and `P` holds of it.
abbrev pub Sure : {A : Type 0} → (A → Type 0) → Run A → Type 0
Sure P (done a) = P a
Sure P exited = ⊥
Sure P fault = ⊥
Sure P out_of_fuel = ⊥

pub Sure-self :
    {A : Type 0} (P : A → Type 0) (m : Run A) → Sure P m → Sure (λ a. (m ≡ done a) × P a) m
Sure-self P (done a) h = (refl, h)
Sure-self P exited h = h
Sure-self P fault h = h
Sure-self P out_of_fuel h = h

pub Sure-bind :
    {A B : Type 0} (P : A → Type 0) (Q : B → Type 0) (m : Run A) (f : A → Run B)
    → Sure P m
    → ((a : A) → P a → Sure Q (f a))
    → Sure Q (m >>= f)
Sure-bind P Q (done a) f h k = k a h
Sure-bind P Q exited f h k = absurd h
Sure-bind P Q fault f h k = absurd h
Sure-bind P Q out_of_fuel f h k = absurd h

pub Sure-if :
    {A : Type 0} (P : A → Type 0) (b : Bool) (x y : Run A)
    → (b ≡ true → Sure P x)
    → (b ≡ false → Sure P y)
    → Sure P (if b then x else y)
Sure-if P true x y h k = h refl
Sure-if P false x y h k = k refl

-- No more bytes were taken than `len` says.
abbrev pub Within : {A : Type 0} → ℕ → Parsed A → Type 0
Within len (parsed a k) = k ≤ len
Within len (rejected a) = Unit {0}

abbrev pub Taken : {A : Type 0} → ℕ → Step A → Type 0
Taken len (read a k len') = k ≤ len
Taken len (bad a) = Unit {0}

-- ... and the new `len` is exactly what is left.
abbrev pub Tracked : {A : Type 0} → ℕ → Step A → Type 0
Tracked len (read a k len') = (k ≤ len) × (len' ≡ len - k)
Tracked len (bad a) = Unit {0}

-- ===== src/Base/Outcome.antt =====
-- The outcome of a run of the program.
use mathlib.Core.Path.{◌≡◌, refl}
use mathlib.Core.Option.{Option, none, some}

-- `exited`: the process ended by `exit(-1)` or an uncaught exception. `fault`: undefined behaviour
-- (a read outside a buffer, a division by zero). `out_of_fuel` has no counterpart in the program.
pub data Run {ℓ} (A : Type ℓ) : Type ℓ where
  done : A → Run A
  exited fault out_of_fuel : Run A

infixl 5 ◌>>=◌
abbrev pub ◌>>=◌ {ℓ κ} : {A : Type ℓ} {B : Type κ} → Run A → (A → Run B) → Run B
done a >>= f = f a
exited >>= f = exited
fault >>= f = fault
out_of_fuel >>= f = out_of_fuel

-- The value, or the end of the process.
abbrev pub require {ℓ} : {A : Type ℓ} → Option A → Run A
require (some a) = done a
require none = exited

pub >>=-eq-done {ℓ κ} :
    {A : Type ℓ} {B : Type κ} (m : Run A) (f : A → Run B) {b : B}
    → (m >>= f) ≡ done b
    → (a : A) × (m ≡ done a) × (f a ≡ done b)
>>=-eq-done (done a) f h = (a, refl, h)
>>=-eq-done exited f h = cc
>>=-eq-done fault f h = cc
>>=-eq-done out_of_fuel f h = cc

pub >>=-cong {ℓ κ} :
    {A : Type ℓ} {B : Type κ} (m : Run A) (f g : A → Run B)
    → ((a : A) → m ≡ done a → f a ≡ g a)
    → (m >>= f) ≡ (m >>= g)
>>=-cong (done a) f g h = h a refl
>>=-cong exited f g h = refl
>>=-cong fault f g h = refl
>>=-cong out_of_fuel f g h = refl

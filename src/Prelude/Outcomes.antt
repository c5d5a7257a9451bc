-- ===== src/Prelude/Outcomes.antt =====
-- How a call ends: with a value, in a failed DUAN_ASSERT, in undefined behaviour, or in a C++
-- exception.
use mathlib.Core.Bool.{Bool, true, false}
use mathlib.Core.Path.{◌≡◌, refl}
use native.Mathlib.Omega.{arith}

pub data Result {ℓ} (A : Type ℓ) : Type ℓ where
  ok : A → Result A
  abort : Result A
  fault : Result A
  throws : Result A

infixl 5 ◌>>=◌ ◌>>◌
abbrev pub ◌>>=◌ {ℓ κ} : {A : Type ℓ} {B : Type κ} → Result A → (A → Result B) → Result B
ok a >>= f = f a
abort >>= f = abort
fault >>= f = fault
throws >>= f = throws

abbrev pub ◌>>◌ {ℓ} : {B : Type ℓ} → Result (Unit {0}) → Result B → Result B
m >> k = m >>= λ _. k

-- DUAN_ASSERT of duan_src/macro.h.
abbrev pub assert : Bool → Result (Unit {0})
assert true = ok tt
assert false = abort

-- A chain that ends well has a first step that does.
pub ok_of_>>= {ℓ κ} :
    {A : Type ℓ} {B : Type κ} (x : Result A) (f : A → Result B) (b : B)
    → (x >>= f) ≡ ok b
    → (a : A) × (x ≡ ok a) × (f a ≡ ok b)
ok_of_>>= (ok a) f b e = (a, refl, e)
ok_of_>>= abort f b e = ground arith
ok_of_>>= fault f b e = ground arith
ok_of_>>= throws f b e = ground arith

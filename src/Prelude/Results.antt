-- ===== src/Prelude/Results.antt =====
-- Thrown errors as values: a result is a value or a failure.
use mathlib.Core.Path.{◌≡◌, refl}
use mathlib.Core.Bool.{Bool, true, false}
use mathlib.Core.Option.{Option, none, some}
use mathlib.Core.List.{List, [], ◌∷◌}

pub data Result {ℓ κ} (E : Type κ) (A : Type ℓ) : Type (ℓ ⊔ κ) where
  ok : A → Result E A
  err : E → Result E A

module _ {κ} {E : Type κ} where
  infixl 5 ◌>>=◌ ◌>>◌
  abbrev pub ◌>>=◌ {ℓ ℓ'} : {A : Type ℓ} {B : Type ℓ'} → Result E A → (A → Result E B) → Result E B
  ok value >>= next = next value
  err failure >>= next = err failure

  abbrev pub ◌>>◌ {ℓ} : {B : Type ℓ} → Result E (Unit {0}) → Result E B → Result E B
  first >> second = first >>= λ _. second

  -- `if (test) throw failure;`
  abbrev pub throw_if : Bool → E → Result E (Unit {0})
  throw_if true e = err e
  throw_if false e = ok tt

  -- `if (!value) throw failure;`
  abbrev pub or_throw {ℓ} : {A : Type ℓ} → Option A → E → Result E A
  or_throw none e = err e
  or_throw (some a) e = ok a

  -- A loop that calls `f` on each element and stops at the first failure.
  abbrev pub for_each {ℓ} : {A : Type ℓ} → (A → Result E (Unit {0})) → List A → Result E (Unit {0})
  for_each f [] = ok tt
  for_each f (x ∷ xs) = f x >> for_each f xs

  abbrev pub map_each {ℓ ℓ'} :
      {A : Type ℓ} {B : Type ℓ'} → (A → Result E B) → List A → Result E (List B)
  map_each f [] = ok []
  map_each f (x ∷ xs) = f x >>= λ y. map_each f xs >>= λ ys. ok (y ∷ ys)

  -- A chain returns only if its first part does.
  pub >>=-eq-ok {ℓ ℓ'} :
      {A : Type ℓ} {B : Type ℓ'} (first : Result E A) (next : A → Result E B) {result : B}
      → (first >>= next) ≡ ok result
      → (value : A) × (first ≡ ok value) × (next value ≡ ok result)
  >>=-eq-ok (ok value) next h = (value, refl, h)
  >>=-eq-ok (err failure) next h = cc

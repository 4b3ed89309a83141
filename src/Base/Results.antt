-- ===== src/Base/Results.antt =====
-- A computation that ends in a value or in an error of type E, with the notation of `do` blocks.
use mathlib.Core.Path.{◌≡◌, refl}
use mathlib.Core.Bool.{Bool, true, false}

pub data Try {ℓ} (E : Type 0) (A : Type ℓ) : Type ℓ where
  err : E → Try E A
  ok : A → Try E A

module _ {E : Type 0} where
  -- `if test: raise e`
  abbrev pub refuse : Bool → E → Try E (Unit {0})
  refuse false e = ok tt
  refuse true e = err e

  infixl 5 ◌>>=◌ ◌>>◌
  abbrev pub ◌>>◌ {ℓ} : {B : Type ℓ} → Try E (Unit {0}) → Try E B → Try E B
  err e >> next = err e
  ok unit >> next = next

  abbrev pub ◌>>=◌ {κ ℓ} : {A : Type κ} {B : Type ℓ} → Try E A → (A → Try E B) → Try E B
  err e >>= next = err e
  ok a >>= next = next a

  -- A sequence that ended in a value had one at its first step.
  pub >>=-eq-ok {κ ℓ} :
      {A : Type κ} {B : Type ℓ} (first : Try E A) (next : A → Try E B) {b : B}
      → (first >>= next) ≡ ok b
      → (a : A) × (first ≡ ok a) × (next a ≡ ok b)
  >>=-eq-ok (err e) next h = cc
  >>=-eq-ok (ok a) next h = (a, refl, h)

  -- A test that comes before a value was false.
  pub refuse-eq-ok {ℓ} :
      {B : Type ℓ} (test : Bool) (e : E) (next : Try E B) {b : B}
      → (refuse test e >> next) ≡ ok b
      → (test ≡ false) × (next ≡ ok b)
  refuse-eq-ok true e next h = cc
  refuse-eq-ok false e next h = (refl, h)

-- ===== src/Base/Results.antt =====
-- A Go function that returns a value and an error: the value, or the error.
use mathlib.Core.Path.{◌≡◌, refl}
use mathlib.Core.Bool.{Bool, true, false}

pub data Result (E A : Type 0) : Type 0 where
  ok : A → Result E A
  err : E → Result E A

module _ {E : Type 0} where
  -- `if !test { return err }`
  abbrev pub require : Bool → E → Result E (Unit {0})
  require false e = err e
  require true _ = ok tt

  infixl 5 ◌>>=◌ ◌>>◌
  abbrev pub ◌>>=◌ : {A B : Type 0} → Result E A → (A → Result E B) → Result E B
  err e >>= next = err e
  ok a >>= next = next a

  abbrev pub ◌>>◌ : {B : Type 0} → Result E (Unit {0}) → Result E B → Result E B
  m >> rest = m >>= λ u. rest

  -- Inversion of a successful chain.
  pub bind-ok :
      {A B : Type 0} (first : Result E A) (next : A → Result E B) {value : B}
      → (first >>= next) ≡ ok value
      → (got : A) × (first ≡ ok got) × (next got ≡ ok value)
  bind-ok (err e) next p = cc
  bind-ok (ok got) next p = (got, refl, p)

  pub require-ok :
      {B : Type 0} (t : Bool) (e : E) (k : Result E B) {b : B}
      → (require t e >> k) ≡ ok b
      → (t ≡ true) × (k ≡ ok b)
  require-ok true e k h = (refl, h)
  require-ok false e k h = cc

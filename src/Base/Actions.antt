-- ===== src/Base/Actions.antt =====
-- A Go function that changes a state and returns a value and an error.
use mathlib.Core.Path.{◌≡◌, refl}
use mathlib.Core.Option.{Option, none, some}
use slivingdoc.Base.Results.{Result, ok, err}

abbrev pub Action : Type 0 → Type 0 → Type 0 → Type 0
Action S E A = S → Result E A × S

module _ {S E : Type 0} where
  abbrev pub give : {A : Type 0} → A → Action S E A
  give a s = (ok a, s)

  abbrev pub fail : {A : Type 0} → E → Action S E A
  fail e s = (err e, s)

  -- A state and an error that is nil on success.
  abbrev pub checked : {D : Type 0} → (D → E) → Option D × S → Result E (Unit {0}) × S
  checked wrap (none, s) = (ok tt, s)
  checked wrap (some d, s) = (err (wrap d), s)

  abbrev pub wrapped : {A D : Type 0} → (D → E) → Result D A × S → Result E A × S
  wrapped wrap (ok a, s) = (ok a, s)
  wrapped wrap (err d, s) = (err (wrap d), s)

  abbrev pub after : {A B : Type 0} → Result E A × S → (A → Action S E B) → Result E B × S
  after (ok a, s) next = next a s
  after (err e, s) next = (err e, s)

  infixl 5 ◌>>=◌ ◌>>◌
  abbrev pub ◌>>=◌ : {A B : Type 0} → Action S E A → (A → Action S E B) → Action S E B
  (m >>= next) s = after (m s) next

  abbrev pub ◌>>◌ : {A B : Type 0} → Action S E A → Action S E B → Action S E B
  (m >> rest) s = after (m s) (λ a. rest)

  -- Inversion of a chain that succeeded.
  pub after-ok :
      {A B : Type 0} (r : Result E A × S) (next : A → Action S E B) {b : B} {u : S}
      → after r next ≡ (ok b, u)
      → (a : A) × (t : S) × (r ≡ (ok a, t)) × (next a t ≡ (ok b, u))
  after-ok (ok a, t) next p = (a, t, refl, p)
  after-ok (err e, t) next p = cc

  pub checked-ok :
      {D : Type 0} (wrap : D → E) (r : Option D × S) (t : S) (u : Unit {0})
      → checked wrap r ≡ (ok u, t)
      → r ≡ (none, t)
  checked-ok wrap (none, s) t u p = cc
  checked-ok wrap (some d, s) t u p = cc

  pub wrapped-ok :
      {A D : Type 0} (wrap : D → E) (r : Result D A × S) (a : A) (t : S)
      → wrapped wrap r ≡ (ok a, t)
      → r ≡ (ok a, t)
  wrapped-ok wrap (ok b, s) a t p = cc
  wrapped-ok wrap (err d, s) a t p = cc

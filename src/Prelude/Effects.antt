-- ===== src/Prelude/Effects.antt =====
-- Methods that change an object and may raise: what was written before a raise stays written, so
-- the state comes back beside the error too.
use hawklive.Prelude.Results.{Result, ok, err}
use mathlib.Core.Bool.{Bool, true, false}

abbrev pub Effect {ℓ} : Type ℓ → Type ℓ → Type ℓ → Type ℓ
Effect S E A = S → Result E A × S

module _ {ℓ} {S E A B : Type ℓ} where
  -- What comes after a step, in the state that the step left.
  abbrev pub after : Result E A → (A → Effect S E B) → Effect S E B
  after (ok a) f s = f a s
  after (err e) f s = (err e, s)

  infixl 5 ◌>>=◌ ◌>>◌
  abbrev pub ◌>>=◌ : Effect S E A → (A → Effect S E B) → Effect S E B
  ◌>>=◌ m f s = after (m s).0 f (m s).1

  abbrev pub ◌>>◌ : Effect S E A → Effect S E B → Effect S E B
  ◌>>◌ m k = m >>= λ _. k

module _ {ℓ} {S E A : Type ℓ} where
  abbrev pub pure : A → Effect S E A
  pure a s = (ok a, s)

  abbrev pub raise : E → Effect S E A
  raise e s = (err e, s)

  abbrev pub lift : Result E A → Effect S E A
  lift r s = (r, s)

  abbrev pub gets : (S → A) → Effect S E A
  gets f s = (ok (f s), s)

module _ {ℓ} {S E : Type ℓ} where
  abbrev pub modify : (S → S) → Effect S E Unit
  modify f s = (ok tt, f s)

  -- `if not condition: raise e`
  abbrev pub ensure : Bool → E → Effect S E Unit
  ensure true e = pure tt
  ensure false e = raise e

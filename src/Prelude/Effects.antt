-- ===== src/Prelude/Effects.antt =====
-- Python methods that mutate an object and may raise. What was written before a raise stays
-- written, so the state comes back beside the error too.
use mathlib.Core.Path.{◌≡◌, refl}
use mathlib.Core.Logic.{◌⊎◌, inl, inr}
use mathlib.Core.Bool.{Bool, true, false}

pub data Outcome {ℓ κ} (E : Type ℓ) (A : Type κ) : Type (ℓ ⊔ κ) where
  ok : A → Outcome E A
  err : E → Outcome E A

pub Outcome-cases {ℓ κ} :
    {E : Type ℓ} {A : Type κ} (o : Outcome E A) → ((a : A) × (o ≡ ok a)) ⊎ ((e : E) × (o ≡ err e))
Outcome-cases (ok a) = inl (a, refl)
Outcome-cases (err e) = inr (e, refl)

abbrev pub Exec : Type 0 → Type 0 → Type 0 → Type 0
Exec E S A = S → Outcome E A × S

module _ {E S A : Type 0} where
  abbrev pub pure : A → Exec E S A
  pure a s = (ok a, s)

  abbrev pub raise : E → Exec E S A
  raise e s = (err e, s)

  abbrev pub lift : Outcome E A → Exec E S A
  lift r s = (r, s)

  abbrev pub gets : (S → A) → Exec E S A
  gets f s = (ok (f s), s)

module _ {E S : Type 0} where
  abbrev pub modify : (S → S) → Exec E S (Unit {0})
  modify f s = (ok tt, f s)

  -- `if not test: raise e`
  abbrev pub require : Bool → E → Exec E S (Unit {0})
  require true e s = (ok tt, s)
  require false e s = (err e, s)

module _ {E S A B : Type 0} where
  abbrev pub and_then : Outcome E A → (A → Exec E S B) → Exec E S B
  and_then (ok a) f = f a
  and_then (err e) f = raise e

  infixl 5 ◌>>=◌ ◌>>◌
  abbrev pub ◌>>=◌ : Exec E S A → (A → Exec E S B) → Exec E S B
  ◌>>=◌ m f s = let (r, s') = m s in and_then r f s'

  abbrev pub ◌>>◌ : Exec E S A → Exec E S B → Exec E S B
  m >> n = m >>= λ _. n

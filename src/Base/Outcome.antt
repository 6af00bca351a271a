-- ===== src/Base/Outcome.antt =====
-- Go's `(value, error)` results, and operations on an explicit state that may fail. What an operation
-- did to the state before it failed stays done, so the state comes back beside the error too.
use mathlib.Core.Path.{◌≡◌, refl}
use mathlib.Core.Logic.{◌⊎◌, inl, inr}

pub data Result {ℓ κ} (E : Type ℓ) (A : Type κ) : Type (ℓ ⊔ κ) where
  ok : A → Result E A
  err : E → Result E A

abbrev pub Op {ℓ κ μ} : Type ℓ → Type κ → Type μ → Type (ℓ ⊔ κ ⊔ μ)
Op S E A = S → Result E A × S

module _ {ℓ κ μ} {S : Type ℓ} {E : Type κ} {A : Type μ} where
  abbrev pub pure : A → Op S E A
  pure a s = (ok a, s)

  abbrev pub fail : E → Op S E A
  fail e s = (err e, s)

  abbrev pub lift : Result E A → Op S E A
  lift r s = (r, s)

module _ {ℓ κ μ ν} {S : Type ℓ} {E : Type κ} {A : Type μ} {B : Type ν} where
  abbrev pub continue : Result E A → (A → Op S E B) → S → Result E B × S
  continue (ok a) f s = f a s
  continue (err e) f s = (err e, s)

  infixl 5 ◌>>=◌ ◌>>◌
  abbrev pub ◌>>=◌ : Op S E A → (A → Op S E B) → Op S E B
  ◌>>=◌ m f s = let (r, s') = m s in continue r f s'

  abbrev pub ◌>>◌ : Op S E A → Op S E B → Op S E B
  m >> n = m >>= λ _. n

module _ {ℓ κ μ} {E : Type ℓ} {A : Type κ} {B : Type μ} where
  -- The chain for results that touch no state.
  abbrev pub then_try : Result E A → (A → Result E B) → Result E B
  then_try (ok a) f = f a
  then_try (err e) f = err e

  pub then_try-eq-ok :
      (m : Result E A) (f : A → Result E B) (b : B)
      → then_try m f ≡ ok b
      → (a : A) × (m ≡ ok a) × (f a ≡ ok b)
  then_try-eq-ok (ok a) f b h = (a, refl, h)
  then_try-eq-ok (err e) f b h = cc

module _ {ℓ κ} {E : Type ℓ} {A : Type κ} where
  pub Result-cases : (r : Result E A) → ((a : A) × (r ≡ ok a)) ⊎ ((e : E) × (r ≡ err e))
  Result-cases (ok a) = inl (a, refl)
  Result-cases (err e) = inr (e, refl)

module _ {ℓ κ μ ν} {E : Type ℓ} {F : Type κ} {A : Type μ} {B : Type ν} {S : Type 0} where
  -- Go on with the outcome, whichever it is.
  abbrev pub with_outcome : Op S E A → (Result E A → Op S F B) → Op S F B
  with_outcome f k s = let (r, s') = f s in k r s'

module _ {ℓ κ μ} {E : Type ℓ} {F : Type κ} {A : Type μ} where
  abbrev pub map_err : (E → F) → Result E A → Result F A
  map_err f (ok a) = ok a
  map_err f (err e) = err (f e)

  -- An operation with its errors translated.
  abbrev pub translate : {S : Type 0} → (E → F) → Op S E A → Op S F A
  translate f m = with_outcome m (λ r. lift (map_err f r))

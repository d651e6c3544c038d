-- ===== src/Common/Outcome.antt =====
-- Rust's results, with a third outcome: `panic` is a run that aborts (an index out of range, an
-- overflow of checked arithmetic, a date that does not exist).
use mathlib.Core.Path.{◌≡◌, refl}
use mathlib.Core.Logic.{◌⊎◌, inl, inr}
use mathlib.Core.Option.{Option, none, some}
use mathlib.Core.List.{List, [], ◌∷◌}

pub data Result {ℓ κ} (E : Type ℓ) (A : Type κ) : Type (ℓ ⊔ κ) where
  ok : A → Result E A
  err : E → Result E A
  panic : Result E A

module _ {ℓ κ μ} {E : Type ℓ} {A : Type κ} {B : Type μ} where
  -- The operator `?`: an error or a panic ends the function.
  infixl 5 ◌>>=◌
  abbrev pub ◌>>=◌ : Result E A → (A → Result E B) → Result E B
  ok a >>= f = f a
  err e >>= f = err e
  panic >>= f = panic

module _ {ℓ κ} {E : Type ℓ} {A : Type κ} where
  abbrev pub or_panic : Option A → Result E A
  or_panic none = panic
  or_panic (some a) = ok a

  -- `v[0]`
  abbrev pub first : List A → Result E A
  first [] = panic
  first (x ∷ xs) = ok x

  -- `is_ok()`, as a proposition
  abbrev pub IsOk : Result E A → Type 0
  IsOk (ok _) = Unit
  IsOk (err _) = ⊥
  IsOk panic = ⊥

module _ {ℓ κ μ} {E : Type ℓ} {E' : Type κ} {A : Type μ} where
  -- The conversion of the error that `?` makes.
  abbrev pub map_err : (E → E') → Result E A → Result E' A
  map_err f (ok a) = ok a
  map_err f (err e) = err (f e)
  map_err f panic = panic

module _ {ℓ κ μ} {E : Type ℓ} {A : Type κ} {B : Type μ} where
  -- Inversion of a chain that has returned.
  pub >>=-eq-ok :
      (r : Result E A) (f : A → Result E B) {b : B}
      → (r >>= f) ≡ ok b
      → (a : A) × (r ≡ ok a) × (f a ≡ ok b)
  >>=-eq-ok (ok a) f h = (a, refl, h)
  >>=-eq-ok (err e) f h = cc
  >>=-eq-ok panic f h = cc

module _ {ℓ κ} {E : Type ℓ} {A : Type κ} where
  pub Result-cases :
      (r : Result E A) → ((a : A) × (r ≡ ok a)) ⊎ ((e : E) × (r ≡ err e)) ⊎ (r ≡ panic)
  Result-cases (ok a) = inl (a, refl)
  Result-cases (err e) = inr (inl (e, refl))
  Result-cases panic = inr (inr refl)

  pub IsOk-value : (r : Result E A) → IsOk r → (a : A) × (r ≡ ok a)
  IsOk-value (ok a) h = (a, refl)
  IsOk-value (err e) h = absurd h
  IsOk-value panic h = absurd h

-- The outcome of a run that does not abort.
abbrev pub Returns {ℓ κ} : {E : Type ℓ} {A : Type κ} → Result E A → Type 0
Returns (ok a) = Unit
Returns (err e) = Unit
Returns panic = ⊥

module _ {ℓ κ μ} {E : Type ℓ} {A : Type κ} {B : Type μ} where
  pub Returns-bind :
      (r : Result E A) (f : A → Result E B)
      → Returns r
      → ((a : A) → r ≡ ok a → Returns (f a))
      → Returns (r >>= f)
  Returns-bind (ok a) f h k = k a refl
  Returns-bind (err e) f h k = tt
  Returns-bind panic f h k = h

module _ {ℓ κ μ} {E : Type ℓ} {E' : Type κ} {A : Type μ} where
  pub Returns-map_err : (f : E → E') (r : Result E A) → Returns r → Returns (map_err f r)
  Returns-map_err f (ok a) h = tt
  Returns-map_err f (err e) h = tt
  Returns-map_err f panic h = h

-- ===== src/Common/Exec.antt =====
-- Code with a mutable state (`&mut self`, or the contract's storage) that may fail or panic. What
-- was written before a failure stays written, so the state comes back beside the error too.
use mathlib.Core.Path.{◌≡◌, refl, ◌∙◌}
use juno_alpha_proxy_contrac.Common.Outcome.{Result, ok, err, panic, IsOk, Returns}

abbrev pub Exec {ℓ κ μ} : Type ℓ → Type κ → Type μ → Type (ℓ ⊔ κ ⊔ μ)
Exec S E A = S → Result E A × S

module _ {ℓ κ μ} {S : Type ℓ} {E : Type κ} {A : Type μ} where
  abbrev pub pure : A → Exec S E A
  pure a s = (ok a, s)

  abbrev pub fail : E → Exec S E A
  fail e s = (err e, s)

  abbrev pub lift : Result E A → Exec S E A
  lift r s = (r, s)

  -- A call that reads the state.
  abbrev pub reads : (S → Result E A) → Exec S E A
  reads f s = (f s, s)

module _ {ℓ κ} {S : Type ℓ} {E : Type κ} where
  -- A call that may write the state; a failed call has written nothing.
  abbrev pub writes : (S → Result E S) → Exec S E (Unit {0})
  writes f s = elim (f s) [ ok s' ↦ (ok tt, s') | err e ↦ (err e, s) | panic ↦ (panic, s) ]

  -- An assignment to the object.
  abbrev pub modify : (S → S) → Exec S E (Unit {0})
  modify f s = (ok tt, f s)

module _ {ℓ κ μ ν} {S : Type ℓ} {E : Type κ} {A : Type μ} {B : Type ν} where
  abbrev pub continue : Result E A → (A → Exec S E B) → Exec S E B
  continue (ok a) f s = f a s
  continue (err e) f s = (err e, s)
  continue panic f s = (panic, s)

  infixl 5 ◌>>=◌ ◌>>◌
  abbrev pub ◌>>=◌ : Exec S E A → (A → Exec S E B) → Exec S E B
  ◌>>=◌ m f s = let (r, s') = m s in continue r f s'

  abbrev pub ◌>>◌ : Exec S E A → Exec S E B → Exec S E B
  m >> k = m >>= λ _. k

-- Inversion of an action that has returned: each part has returned.
module _ {ℓ κ μ ν} {S : Type ℓ} {E : Type κ} {A : Type μ} {B : Type ν} where
  continue-eq-ok :
      (r : Result E A) (f : A → Exec S E B) (s : S) {b : B} {s' : S}
      → continue r f s ≡ (ok b, s')
      → (a : A) × (r ≡ ok a) × (f a s ≡ (ok b, s'))
  continue-eq-ok (ok a) f s h = (a, refl, h)
  continue-eq-ok (err e) f s h = cc
  continue-eq-ok panic f s h = cc

  pub >>=-eq-ok :
      (m : Exec S E A) (f : A → Exec S E B) (s : S) {b : B} {s' : S}
      → (m >>= f) s ≡ (ok b, s')
      → (a : A) × (s1 : S) × (m s ≡ (ok a, s1)) × (f a s1 ≡ (ok b, s'))
  >>=-eq-ok m f s h =
      let (r, s1) = m s in let (a, e, k) = continue-eq-ok r f s1 h in (a, s1, (λ i. (e i, s1)), k)

module _ {ℓ κ μ} {S : Type ℓ} {E : Type κ} {A : Type μ} where
  -- The value that a call has returned.
  pub IsOk-value : (p : Result E A × S) → IsOk p.0 → (a : A) × (p ≡ (ok a, p.1))
  IsOk-value (ok a, s) h = (a, refl)
  IsOk-value (err e, s) h = absurd h
  IsOk-value (panic, s) h = absurd h

-- An action that, whether it returns or fails, leaves a view of the state alone.
abbrev pub Keeps {ℓ κ μ ν} :
    {S : Type ℓ} {E : Type κ} {A : Type μ} {V : Type ν} → (S → V) → Exec S E A → Type (ℓ ⊔ ν)
Keeps view m = (s : _) → view (m s).1 ≡ view s

module _ {ℓ κ μ ν ι} {S : Type ℓ} {E : Type κ} {A : Type μ} {B : Type ν} {V : Type ι} where
  Keeps-continue :
      (view : S → V) (r : Result E A) (f : A → Exec S E B)
      → ((a : A) → Keeps view (f a))
      → Keeps view (continue r f)
  Keeps-continue view (ok a) f kf s = kf a s
  Keeps-continue view (err e) f kf s = refl
  Keeps-continue view panic f kf s = refl

  pub Keeps-bind :
      (view : S → V) (m : Exec S E A) (f : A → Exec S E B)
      → Keeps view m
      → ((a : A) → Keeps view (f a))
      → Keeps view (m >>= f)
  Keeps-bind view m f km kf s = let (r, s1) = m s in Keeps-continue view r f kf s1 ∙ km s

-- An action that, whether it returns or fails, keeps what holds of the state.
abbrev pub Maintains {ℓ κ μ ν} :
    {S : Type ℓ} {E : Type κ} {A : Type μ} → (S → Type ν) → Exec S E A → Type (ℓ ⊔ ν)
Maintains P m = (s : _) → P s → P (m s).1

module _ {ℓ κ μ ν ι} {S : Type ℓ} {E : Type κ} {A : Type μ} {B : Type ν} where
  Maintains-continue :
      (P : S → Type ι) (r : Result E A) (f : A → Exec S E B)
      → ((a : A) → Maintains P (f a))
      → Maintains P (continue r f)
  Maintains-continue P (ok a) f kf s h = kf a s h
  Maintains-continue P (err e) f kf s h = h
  Maintains-continue P panic f kf s h = h

  pub Maintains-bind :
      (P : S → Type ι) (m : Exec S E A) (f : A → Exec S E B)
      → Maintains P m
      → ((a : A) → Maintains P (f a))
      → Maintains P (m >>= f)
  Maintains-bind P m f km kf s h = let (r, s1) = m s in Maintains-continue P r f kf s1 (km s h)

-- A sequence returns if its parts do.
module _ {ℓ κ μ ν} {S : Type ℓ} {E : Type κ} {A : Type μ} {B : Type ν} where
  Returns-continue :
      (r : Result E A) (f : A → Exec S E B) (s : S)
      → Returns r
      → ((a : A) → r ≡ ok a → Returns (f a s).0)
      → Returns (continue r f s).0
  Returns-continue (ok a) f s h k = k a refl
  Returns-continue (err e) f s h k = tt
  Returns-continue panic f s h k = h

  pub Returns-bind :
      (m : Exec S E A) (f : A → Exec S E B) (s : S)
      → Returns (m s).0
      → ((a : A) (s1 : S) → m s ≡ (ok a, s1) → Returns (f a s1).0)
      → Returns ((m >>= f) s).0
  Returns-bind m f s h k =
      let (r, s1) = m s in Returns-continue r f s1 h (λ a e. k a s1 (λ i. (e i, s1)))

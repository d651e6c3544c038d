-- ===== src/Common/Lists.antt =====
-- Lists measured by native numbers, Boolean searches over them and predicates on their members.
use Prim.Native.Nat.{ℕ, suc}
use mathlib.Core.Bool.{Bool, false, cond, ◌||◌}
use mathlib.Core.Option.{Option, none, some}
use mathlib.Core.List.{List, [], ◌∷◌}

module _ {ℓ} {A : Type ℓ} where
  abbrev pub length : List A → ℕ
  length [] = 0
  length (x ∷ xs) = suc (length xs)

  -- `iter().find(p)`
  abbrev pub find? : (A → Bool) → List A → Option A
  find? p [] = none
  find? p (x ∷ xs) = cond (p x) (some x) (find? p xs)

  -- `iter().any(p)`
  abbrev pub any : (A → Bool) → List A → Bool
  any p [] = false
  any p (x ∷ xs) = p x || any p xs

  -- `retain(p)`
  abbrev pub retain : (A → Bool) → List A → List A
  retain p [] = []
  retain p (x ∷ xs) = cond (p x) (x ∷ retain p xs) (retain p xs)

  -- The first element with `p` is replaced by its image.
  abbrev pub map_first : (A → Bool) → (A → A) → List A → List A
  map_first p f [] = []
  map_first p f (x ∷ xs) = cond (p x) (f x ∷ xs) (x ∷ map_first p f xs)

module _ {ℓ κ} {A : Type ℓ} (P : A → Type κ) where
  abbrev pub All : List A → Type κ
  All [] = Unit
  All (x ∷ xs) = P x × All xs

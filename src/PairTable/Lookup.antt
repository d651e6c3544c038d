-- ===== src/PairTable/Lookup.antt =====
-- What the table of pair contracts answers.
use juno_alpha_proxy_contrac.Common.{
  String, ◌≡◌, refl, ◌↔◌, Bool, false, true, ◌&&◌, none, some, List, [], ◌∷◌, ok, err, arith, ◌==◌,
  eq_iff, All, Bool-cases, inl, inr, subst,
}
use juno_alpha_proxy_contrac.Types.{PairContract, State, pair_contract_not_found}
use juno_alpha_proxy_contrac.PairTable.{find_pair_contract, get_pair_contract}

-- The pair's denominations, in the direction that the flag gives.
abbrev pub Joins : String × String → PairContract → Bool → Type 0
Joins denoms p false = (p.denom1 ≡ denoms.0) × (p.denom2 ≡ denoms.1)
Joins denoms p true = (p.denom2 ≡ denoms.0) × (p.denom1 ≡ denoms.1)

-- The pair joins the two denominations in neither direction.
abbrev pub Unrelated : String × String → PairContract → Type 0
Unrelated denoms p = (¬ Joins denoms p false) × (¬ Joins denoms p true)

-- The first pair of a table that joins two denominations; of its two directions the plain one counts
-- first.
pub data FirstPair (denoms : String × String)
    : List PairContract → PairContract → Bool → Type 0 where
  along :
      {p : PairContract} {ps : List PairContract}
      → Joins denoms p false
      → FirstPair denoms (p ∷ ps) p false
  against :
      {p : PairContract} {ps : List PairContract}
      → ¬ Joins denoms p false
      → Joins denoms p true
      → FirstPair denoms (p ∷ ps) p true
  later :
      {q p : PairContract} {ps : List PairContract} {reversed : Bool}
      → Unrelated denoms q
      → FirstPair denoms ps p reversed
      → FirstPair denoms (q ∷ ps) p reversed

pub FirstPair-Joins :
    {denoms : String × String} {ps : List PairContract} {p : PairContract} {reversed : Bool}
    → FirstPair denoms ps p reversed
    → Joins denoms p reversed
FirstPair-Joins (along j) = j
FirstPair-Joins (against n j) = j
FirstPair-Joins (later u first) = FirstPair-Joins first

module _ (denoms : String × String) (p : PairContract) where
  abbrev is_along : Bool
  is_along = p.denom1 == denoms.0 && p.denom2 == denoms.1

  abbrev is_against : Bool
  is_against = p.denom2 == denoms.0 && p.denom1 == denoms.1

  along_iff : (is_along ≡ true) ↔ Joins denoms p false
  along_iff = ground (arith, eq_iff p.denom1 denoms.0, eq_iff p.denom2 denoms.1)

  against_iff : (is_against ≡ true) ↔ Joins denoms p true
  against_iff = ground (arith, eq_iff p.denom2 denoms.0, eq_iff p.denom1 denoms.1)

  is_false : {b : Bool} {J : Type 0} → (b ≡ true) ↔ J → b ≡ false → ¬ J
  is_false e f j = cc (e.1 j)

  is_true_or : {b : Bool} {J : Type 0} → (b ≡ true) ↔ J → ¬ J → b ≡ false
  is_true_or {b} e n = elim (Bool-cases b) [ inl t ↦ absurd (n (e.0 t)) | inr f ↦ f ]

find_pair_contract-none :
    (denoms : String × String) (ps : List PairContract)
    → find_pair_contract denoms ps ≡ none
    → All (Unrelated denoms) ps
unfolding find_pair_contract
find_pair_contract-none denoms [] h = tt
find_pair_contract-none denoms (p ∷ ps) h = elim (Bool-cases (is_along denoms p)) [
  | inl a ↦ cc (rw a at h)
  | inr not_a ↦ elim (Bool-cases (is_against denoms p)) [
    | inl b ↦ cc (rw (not_a, b) at h)
    | inr not_b ↦ (
      (
        is_false denoms p (along_iff denoms p) not_a,
        is_false denoms p (against_iff denoms p) not_b,
      ),
      find_pair_contract-none denoms ps (rw (not_a, not_b) at h),
    )
  ]
]

find_pair_contract-Unrelated :
    (denoms : String × String) (ps : List PairContract)
    → All (Unrelated denoms) ps
    → find_pair_contract denoms ps ≡ none
unfolding find_pair_contract
find_pair_contract-Unrelated denoms [] h = refl
find_pair_contract-Unrelated denoms (p ∷ ps) ((not_along, not_against), rest) =
    rw
      (
        is_true_or denoms p (along_iff denoms p) not_along,
        is_true_or denoms p (against_iff denoms p) not_against,
      )
      (find_pair_contract-Unrelated denoms ps rest)

some_value : {x y : PairContract × Bool} → some x ≡ some y → x ≡ y
some_value e = cc

find_pair_contract-first :
    (denoms : String × String) (ps : List PairContract) {p : PairContract} {reversed : Bool}
    → find_pair_contract denoms ps ≡ some (p, reversed)
    → FirstPair denoms ps p reversed
unfolding find_pair_contract
find_pair_contract-first denoms [] h = cc
find_pair_contract-first denoms (q ∷ ps) {p} {reversed} h = elim (Bool-cases (is_along denoms q)) [
  | inl a ↦
      subst (λ (x : PairContract × Bool). FirstPair denoms (q ∷ ps) x.0 x.1)
        (some_value (rw a at h)) (along ((along_iff denoms q).0 a))
  | inr not_a ↦ elim (Bool-cases (is_against denoms q)) [
    | inl b ↦
        subst (λ (x : PairContract × Bool). FirstPair denoms (q ∷ ps) x.0 x.1)
          (some_value (rw (not_a, b) at h))
          (against (is_false denoms q (along_iff denoms q) not_a) ((against_iff denoms q).0 b))
    | inr not_b ↦
        later
          (
            is_false denoms q (along_iff denoms q) not_a,
            is_false denoms q (against_iff denoms q) not_b,
          )
          (find_pair_contract-first denoms ps (rw (not_a, not_b) at h))
  ]
]

find_pair_contract-FirstPair :
    (denoms : String × String) {ps : List PairContract} {p : PairContract} {reversed : Bool}
    → FirstPair denoms ps p reversed
    → find_pair_contract denoms ps ≡ some (p, reversed)
unfolding find_pair_contract
find_pair_contract-FirstPair denoms (along {p} j) = rw ((along_iff denoms p).1 j)
find_pair_contract-FirstPair denoms (against {p} n j) =
    rw (is_true_or denoms p (along_iff denoms p) n, (against_iff denoms p).1 j)
find_pair_contract-FirstPair denoms (later {q} (n, m) first) =
    rw (is_true_or denoms q (along_iff denoms q) n, is_true_or denoms q (against_iff denoms q) m)
      (find_pair_contract-FirstPair denoms first)

-- The lookup returns a pair and a direction exactly when that is the first pair of the table that
-- joins the two denominations, in that direction.
pub get_pair_contract-ok_iff :
    (self : State) (denoms : String × String) (p : PairContract) (reversed : Bool)
    → (get_pair_contract self denoms ≡ ok (p, reversed))
      ↔ FirstPair denoms self.pair_contracts p reversed
unfolding get_pair_contract
get_pair_contract-ok_iff self denoms p reversed = (
  λ h. find_pair_contract-first denoms self.pair_contracts (ground arith),
  λ first. rw (get_pair_contract, find_pair_contract-FirstPair denoms first),
)

-- The lookup fails exactly when no pair of the table joins the two denominations, and then with the
-- error that names them and the table.
pub get_pair_contract-err_iff :
    (self : State) (denoms : String × String)
    → (get_pair_contract self denoms
        ≡ err (pair_contract_not_found denoms.0 denoms.1 self.pair_contracts))
      ↔ All (Unrelated denoms) self.pair_contracts
unfolding get_pair_contract
get_pair_contract-err_iff self denoms = (
  λ h. find_pair_contract-none denoms self.pair_contracts (ground arith),
  λ all. rw (get_pair_contract, find_pair_contract-Unrelated denoms self.pair_contracts all),
)

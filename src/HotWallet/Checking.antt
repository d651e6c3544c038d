-- ===== src/HotWallet/Checking.antt =====
-- The dry run of src/hot_wallet.rs, `check_spend_vec`, against the spending itself.
use juno_alpha_proxy_contrac.Common.{
  ℕ, ◌+◌, ◌%◌, ◌≤◌, ◌<◌, ◌≡◌, refl, ◌↔◌, Bool, false, List, [], ◌∷◌, ok, arith, IsOk, All,
  if◌then◌else◌,
}
use juno_alpha_proxy_contrac.Common.Outcome
use juno_alpha_proxy_contrac.Types.{Coin, CoinLimit, HotWallet, Sources, SourcedCoin}
use juno_alpha_proxy_contrac.World.{World}
use juno_alpha_proxy_contrac.HotWallet.{
  u64_mod, no_sources, simulate_reduce_limit, check_spend_from, check_spend_vec, process_spend_vec,
}
use juno_alpha_proxy_contrac.HotWallet.Spending.{
  converted, Costs, free, pay, process_spend_vec-IsOk_iff,
}

module _ (w : World) (storage : w.Storage) where
  -- A coin whose value, modulo 2^64, is within a limit.
  abbrev pub FitsAlone : ℕ → Coin → Type 0
  FitsAlone limit c =
      (usdc : SourcedCoin) × (converted w storage c ≡ ok usdc)
      × (usdc.coin.amount % u64_mod ≤ limit)

  -- The limit that a dry run compares with.
  abbrev pub limit_for : Bool → CoinLimit → ℕ
  limit_for reset l = if reset then l.amount else l.limit_remaining

  module _ (self : HotWallet) (l : CoinLimit) (limits : List CoinLimit) (reset : Bool)
      (has_limit : self.spend_limits ≡ l ∷ limits) where
    simulate-IsOk :
        (c : Coin)
        → FitsAlone (limit_for reset l) c
        → IsOk (simulate_reduce_limit w storage c reset self)
    unfolding simulate_reduce_limit
    simulate-IsOk c (usdc, conv, fits) = ground arith

    simulate-eq-ok :
        (c : Coin) {p : ℕ × SourcedCoin}
        → simulate_reduce_limit w storage c reset self ≡ ok p
        → FitsAlone (limit_for reset l) c
    unfolding simulate_reduce_limit
    simulate-eq-ok c {p} e = (p.1, ground arith, ground arith)

    check_spend_from-ok :
        (coins : List Coin) (tally : ℕ) (sources : Sources) {r : SourcedCoin}
        → check_spend_from w storage reset self coins tally sources ≡ ok r
        → All (FitsAlone (limit_for reset l)) coins
    unfolding check_spend_from
    check_spend_from-ok [] tally sources e = tt
    check_spend_from-ok (c ∷ coins) tally sources e =
        let (p, here, later) =
          Outcome.>>=-eq-ok (simulate_reduce_limit w storage c reset self) _ e in
        (simulate-eq-ok c here, check_spend_from-ok coins _ _ later)

    check_spend_from-fits :
        (coins : List Coin) (tally : ℕ) (sources : Sources)
        → All (FitsAlone (limit_for reset l)) coins
        → IsOk (check_spend_from w storage reset self coins tally sources)
    unfolding check_spend_from
    check_spend_from-fits [] tally sources h = tt
    check_spend_from-fits (c ∷ coins) tally sources (here, later) =
        let (p, e) =
          Outcome.IsOk-value (simulate_reduce_limit w storage c reset self)
            (simulate-IsOk c here) in
        rw e (check_spend_from-fits coins _ _ later)

-- The dry run accepts a list of coins exactly when each coin converts and its value modulo 2^64 is
-- by itself within the limit: the remaining one, or the full one if the period is over. The coins
-- are not added up.
pub check_spend_vec-IsOk_iff :
    (w : World) (storage : w.Storage) (self : HotWallet) {l : CoinLimit} {limits : List CoinLimit}
    (reset : Bool)
    → self.spend_limits ≡ l ∷ limits
    → (coins : List Coin)
    → IsOk (check_spend_vec w storage coins reset self)
      ↔ All (FitsAlone w storage (limit_for w storage reset l)) coins
unfolding check_spend_vec
check_spend_vec-IsOk_iff w storage self {l} {limits} reset e coins = (
  λ h.
      check_spend_from-ok w storage self l limits reset e coins 0 no_sources
        (Outcome.IsOk-value _ h).1,
  check_spend_from-fits w storage self l limits reset e coins 0 no_sources,
)

pub FitsAlone-of_Costs :
    (w : World) (storage : w.Storage) (limit : ℕ) {coins : List Coin} {n : ℕ}
    → Costs w storage coins n
    → n ≤ limit
    → All (FitsAlone w storage limit) coins
FitsAlone-of_Costs w storage limit free h = tt
FitsAlone-of_Costs w storage limit (pay {usdc} conv cost) h =
    ((usdc, conv, omega arith), FitsAlone-of_Costs w storage limit cost (omega arith))

-- While no reset is due, what can be spent passes the dry run.
pub check_spend_vec_complete :
    (w : World) (storage : w.Storage) (self : HotWallet) {l : CoinLimit} {limits : List CoinLimit}
    → self.spend_limits ≡ l ∷ limits
    → (coins : List Coin) → IsOk (process_spend_vec w storage coins self).0
    → IsOk (check_spend_vec w storage coins false self)
check_spend_vec_complete w storage self e coins h =
    let (n, cost, fits) = (process_spend_vec-IsOk_iff w storage self e coins).0 h in
    (check_spend_vec-IsOk_iff w storage self false e coins).1
      (FitsAlone-of_Costs w storage _ cost fits)

Costs-sum :
    (w : World) (storage : w.Storage) (c : Coin) (limit : ℕ)
    → FitsAlone w storage limit c
    → (n : ℕ) × Costs w storage (c ∷ []) n × (n ≤ limit)
Costs-sum w storage c limit (usdc, conv, fits) =
    (usdc.coin.amount % u64_mod + 0, pay conv free, omega arith)

-- For a single coin, while no reset is due, the dry run and the spending agree.
pub check_spend_vec-single :
    (w : World) (storage : w.Storage) (self : HotWallet) {l : CoinLimit} {limits : List CoinLimit}
    → self.spend_limits ≡ l ∷ limits
    → (c : Coin)
    → IsOk (check_spend_vec w storage (c ∷ []) false self)
      ↔ IsOk (process_spend_vec w storage (c ∷ []) self).0
check_spend_vec-single w storage self e c = (
  λ h.
      (process_spend_vec-IsOk_iff w storage self e (c ∷ [])).1 (
        Costs-sum w storage c _ ((check_spend_vec-IsOk_iff w storage self false e (c ∷ [])).0 h).0),
  check_spend_vec_complete w storage self e (c ∷ []),
)

Costs-unique :
    (w : World) (storage : w.Storage) {coins : List Coin} {m n : ℕ}
    → Costs w storage coins m
    → Costs w storage coins n
    → m ≡ n
Costs-unique w storage free free = refl
Costs-unique w storage (pay conv cost) (pay conv' cost') =
    ground (arith, Costs-unique w storage cost cost')

-- Several coins whose values, each counted modulo 2^64, are each within the remaining limit and add
-- up to more than it pass the dry run and cannot be spent.
pub check_spend_vec-too_weak :
    (w : World) (storage : w.Storage) (self : HotWallet) {l : CoinLimit} {limits : List CoinLimit}
    → self.spend_limits ≡ l ∷ limits
    → {coins : List Coin} {n : ℕ} → All (FitsAlone w storage l.limit_remaining) coins
    → Costs w storage coins n
    → l.limit_remaining < n
    → IsOk (check_spend_vec w storage coins false self)
      × (¬ IsOk (process_spend_vec w storage coins self).0)
check_spend_vec-too_weak w storage self e {coins} {n} each cost over = (
  (check_spend_vec-IsOk_iff w storage self false e coins).1 each,
  λ h.
      let (m, cost', fits) = (process_spend_vec-IsOk_iff w storage self e coins).0 h in
      absurd (omega (arith, Costs-unique w storage cost cost')),
)

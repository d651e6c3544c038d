-- ===== src/HotWallet/Spending.antt =====
-- The accounting of src/hot_wallet.rs: what a list of coins costs a wallet.
use juno_alpha_proxy_contrac.Common.{
  ℕ, ◌+◌, ◌-◌, ◌%◌, ◌≤◌, ◌≡◌, refl, ◌↔◌, false, List, [], ◌∷◌, Result, ok, arith, IsOk,
}
use juno_alpha_proxy_contrac.Common.Exec
use juno_alpha_proxy_contrac.Types.{Coin, CoinLimit, HotWallet, Sources, SourcedCoin, ContractError}
use juno_alpha_proxy_contrac.World.{World}
use juno_alpha_proxy_contrac.SourcedCoin.{get_converted_to_usdc}
use juno_alpha_proxy_contrac.HotWallet.{
  u64_mod, no_sources, simulate_reduce_limit, reduce_limit, process_spend_from, process_spend_vec,
}

-- The wallet with another remaining limit.
abbrev pub with_remaining : HotWallet → CoinLimit → List CoinLimit → ℕ → HotWallet
with_remaining self l rest n = record self {
  spend_limits = record l { limit_remaining = n } ∷ rest;
}

module _ (w : World) (storage : w.Storage) where
  abbrev pub converted : Coin → Result ContractError SourcedCoin
  converted c =
      get_converted_to_usdc w storage (record { coin = c; wrapped_sources = no_sources }) false

  -- Coins that all convert to USDC, and the sum of their values as the limit counts them: each
  -- modulo 2^64, since the source casts it to `u64`.
  pub data Costs : List Coin → ℕ → Type 0 where
    free : Costs [] 0
    pay :
        {c : Coin} {rest : List Coin} {usdc : SourcedCoin} {n : ℕ}
        → converted c ≡ ok usdc
        → Costs rest n
        → Costs (c ∷ rest) (usdc.coin.amount % u64_mod + n)

  module _ (self : HotWallet) (l : CoinLimit) (limits : List CoinLimit)
      (has_limit : self.spend_limits ≡ l ∷ limits) where
    reduce_limit-ok :
        (c : Coin) {usdc : SourcedCoin}
        → converted c ≡ ok usdc
        → usdc.coin.amount % u64_mod ≤ l.limit_remaining
        → reduce_limit w storage c self
          ≡ (ok usdc, with_remaining self l limits (l.limit_remaining - usdc.coin.amount % u64_mod))
    unfolding reduce_limit simulate_reduce_limit
    reduce_limit-ok c e h = ground arith

    reduce_limit-eq-ok :
        (c : Coin) {usdc : SourcedCoin} {self' : HotWallet}
        → reduce_limit w storage c self ≡ (ok usdc, self')
        → (converted c ≡ ok usdc)
          × (usdc.coin.amount % u64_mod ≤ l.limit_remaining)
          × (self' ≡ with_remaining self l limits (l.limit_remaining - usdc.coin.amount % u64_mod))
    unfolding reduce_limit simulate_reduce_limit
    reduce_limit-eq-ok c h = ground arith

  process_spend_from-ok :
      (self : HotWallet) (l : CoinLimit) (limits : List CoinLimit)
      → self.spend_limits ≡ l ∷ limits
      → (coins : List Coin) (tally : ℕ) (sources : Sources) {r : SourcedCoin} {self' : HotWallet}
      → process_spend_from w storage coins tally sources self ≡ (ok r, self')
      → (n : ℕ) × Costs coins n
        × (n ≤ l.limit_remaining)
        × (self' ≡ with_remaining self l limits (l.limit_remaining - n))
  unfolding process_spend_from
  process_spend_from-ok self l limits e [] tally sources h = (0, free, omega arith, ground arith)
  process_spend_from-ok self l limits e (c ∷ coins) tally sources h =
      let (usdc, self1, first, later) = Exec.>>=-eq-ok (reduce_limit w storage c) _ self h in
      let (conv, fits, same) = reduce_limit-eq-ok self l limits e c first in
      let (n, cost, fits', same') =
        process_spend_from-ok self1
          (record l { limit_remaining = l.limit_remaining - usdc.coin.amount % u64_mod }) limits
          (rw same refl) coins _ _ later in
      (usdc.coin.amount % u64_mod + n, pay conv cost, omega arith, ground arith)

  process_spend_from-pays :
      (self : HotWallet) (l : CoinLimit) (limits : List CoinLimit)
      → self.spend_limits ≡ l ∷ limits
      → {coins : List Coin} {n : ℕ} (tally : ℕ) (sources : Sources) → Costs coins n
      → n ≤ l.limit_remaining
      → IsOk (process_spend_from w storage coins tally sources self).0
  unfolding process_spend_from
  process_spend_from-pays self l limits e tally sources free h = tt
  process_spend_from-pays self l limits e tally sources (pay {c} {usdc} {n} conv cost) h =
      rw (reduce_limit-ok self l limits e c conv (omega arith)) (
        process_spend_from-pays
          (with_remaining self l limits (l.limit_remaining - usdc.coin.amount % u64_mod))
          (record l { limit_remaining = l.limit_remaining - usdc.coin.amount % u64_mod }) limits
          refl _ _ cost (omega arith))

-- With a first limit, a list of coins is spent exactly when all of them convert to USDC and their
-- values, each counted modulo 2^64, add up to no more than what remains of that limit.
pub process_spend_vec-IsOk_iff :
    (w : World) (storage : w.Storage) (self : HotWallet) {l : CoinLimit} {limits : List CoinLimit}
    → self.spend_limits ≡ l ∷ limits
    → (coins : List Coin)
    → IsOk (process_spend_vec w storage coins self).0
      ↔ ((n : ℕ) × Costs w storage coins n × (n ≤ l.limit_remaining))
unfolding process_spend_vec
process_spend_vec-IsOk_iff w storage self {l} {limits} e coins = (
  λ h.
      let (n, cost, fits, _) =
        process_spend_from-ok w storage self l limits e coins 0 no_sources
          (Exec.IsOk-value _ h).1 in
      (n, cost, fits),
  λ (n, cost, fits). process_spend_from-pays w storage self l limits e 0 no_sources cost fits,
)

-- A successful spend lowers the remaining limit by exactly the cost of the coins, the sum of their
-- values each counted modulo 2^64, and changes nothing else of the wallet.
pub process_spend_vec-charges :
    (w : World) (storage : w.Storage) (self : HotWallet) {l : CoinLimit} {limits : List CoinLimit}
    → self.spend_limits ≡ l ∷ limits
    → (coins : List Coin) {r : SourcedCoin} {self' : HotWallet}
    → process_spend_vec w storage coins self ≡ (ok r, self')
    → (n : ℕ) × Costs w storage coins n
      × (n ≤ l.limit_remaining)
      × (self' ≡ with_remaining self l limits (l.limit_remaining - n))
unfolding process_spend_vec
process_spend_vec-charges w storage self {l} {limits} e coins h =
    process_spend_from-ok w storage self l limits e coins 0 no_sources h

-- ===== src/State/Period.antt =====
-- `check_and_update_spend_limits` of src/state.rs within a period of the wallet.
use juno_alpha_proxy_contrac.Common.{
  ℕ, ◌-◌, ◌≤◌, String, ◌≡◌, ◌≢◌, ap, ◌∙◌, false, List, ◌∷◌, ok, arith, some, find?, map_first, inl,
  inr, Option-cases,
}
use juno_alpha_proxy_contrac.Types.{Coin, Timestamp, CoinLimit, HotWallet, State, SourcedCoin}
use juno_alpha_proxy_contrac.World.{World}
use juno_alpha_proxy_contrac.HotWallet.{should_reset, process_spend_vec}
use juno_alpha_proxy_contrac.HotWallet.Spending.{Costs, with_remaining, process_spend_vec-charges}
use juno_alpha_proxy_contrac.State.{
  has_address, is_admin, maybe_get_hot_wallet, maybe_get_hot_wallet_mut, update_wallet,
  check_and_update_spend_limits,
}
use juno_alpha_proxy_contrac.State.Spending.{terms-update_wallet}
use juno_alpha_proxy_contrac.State.Wallets.{
  find?-map_first_ne, find?-map_first_self, address-of_find?,
}

module _ (w : World) (storage : w.Storage) (addr : String) where
  -- What a spend of a wallet whose period runs has made of the state: the cost is taken from what
  -- remained, and every other address keeps its wallet.
  abbrev pub Drawn : List Coin → HotWallet → CoinLimit → List CoinLimit → State → State → Type 0
  Drawn spend wal l limits self self' =
      (n : ℕ) × Costs w storage spend n
      × (n ≤ l.limit_remaining)
      × (maybe_get_hot_wallet self' addr ≡ ok (with_remaining wal l limits (l.limit_remaining - n)))
      × ((other : String)
          → other ≢ addr
          → maybe_get_hot_wallet self' other ≡ maybe_get_hot_wallet self other)

module _ (w : World) (storage : w.Storage) (current_time : Timestamp) (addr : String) where
  pub check_and_update_spend_limits-Drawn :
      (spend : List Coin) (self : State) {wal : HotWallet} {l : CoinLimit} {limits : List CoinLimit}
      {r : SourcedCoin} {self' : State}
      → is_admin self addr ≡ false
      → maybe_get_hot_wallet self addr ≡ ok wal
      → wal.spend_limits ≡ l ∷ limits
      → should_reset w current_time wal ≡ false
      → check_and_update_spend_limits w storage current_time addr spend self ≡ (ok r, self')
      → Drawn w storage addr spend wal l limits self self'
  unfolding check_and_update_spend_limits maybe_get_hot_wallet_mut maybe_get_hot_wallet
      update_wallet
  check_and_update_spend_limits-Drawn spend self {wal} {l} {limits} {r} {self'} not_admin found e
        running spent =
      let at_addr : find? (has_address addr) self.hot_wallets ≡ some wal = ground arith in
      let wal' : HotWallet = (process_spend_vec w storage spend wal).1 in
      let processed : process_spend_vec w storage spend wal ≡ (ok r, wal') = ground arith in
      let (n, cost, fits, same) = process_spend_vec-charges w storage wal e spend processed in
      let wal_n = with_remaining wal l limits (l.limit_remaining - n) in
      let state : self' ≡ record self {
        hot_wallets = map_first (has_address addr) (λ _. wal_n) self.hot_wallets;
      } =
        ground arith in
      let same_address = address-of_find? addr self.hot_wallets at_addr in
      (
        n,
        cost,
        fits,
        rw state
            (ground (arith, find?-map_first_self addr wal_n self.hot_wallets same_address at_addr)),
        λ other ne.
            rw state (
              ground (arith, find?-map_first_ne addr other wal_n self.hot_wallets same_address ne)),
      )

  -- Whether it returns or fails, the check leaves every other address with its wallet.
  pub maybe_get_hot_wallet-check_and_update_spend_limits :
      (spend : List Coin) (self : State) (other : String)
      → other ≢ addr
      → maybe_get_hot_wallet
          (check_and_update_spend_limits w storage current_time addr spend self).1
          other
        ≡ maybe_get_hot_wallet self other
  unfolding check_and_update_spend_limits maybe_get_hot_wallet_mut maybe_get_hot_wallet
  maybe_get_hot_wallet-check_and_update_spend_limits spend self other ne =
      elim (Option-cases (find? (has_address addr) self.hot_wallets)) [
        | inl missing ↦ ground arith
        | inr (wal, found) ↦
            let wal' : HotWallet = (update_wallet w storage current_time spend wal).1 in
            let same_address : wal'.address ≡ addr =
              ap (λ (x : HotWallet). x.address)
                (terms-update_wallet w storage current_time spend wal)
              ∙ address-of_find? addr self.hot_wallets found in
            ground (arith, find?-map_first_ne addr other wal' self.hot_wallets same_address ne)
      ]

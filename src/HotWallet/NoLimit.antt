-- ===== src/HotWallet/NoLimit.antt =====
-- A wallet of src/hot_wallet.rs without limits spends nothing and cannot be reset.
use juno_alpha_proxy_contrac.Common.{◌≡◌, ◌≢◌, List, [], ◌∷◌, ok, arith}
use juno_alpha_proxy_contrac.Common.Exec
use juno_alpha_proxy_contrac.Types.{Coin, Timestamp, HotWallet, SourcedCoin}
use juno_alpha_proxy_contrac.World.{World}
use juno_alpha_proxy_contrac.HotWallet.{
  set_remaining, simulate_reduce_limit, reduce_limit, reset_limits, reset_period,
  process_spend_from, process_spend_vec,
}

module _ (w : World) where
  pub process_spend_vec-no_limit :
      (storage : w.Storage) (spend : List Coin) (self : HotWallet) {r : SourcedCoin}
      {self' : HotWallet}
      → self.spend_limits ≡ []
      → process_spend_vec w storage spend self ≡ (ok r, self')
      → self' ≡ self
  unfolding process_spend_vec process_spend_from reduce_limit set_remaining simulate_reduce_limit
  process_spend_vec-no_limit storage [] self e h = ground arith
  process_spend_vec-no_limit storage (c ∷ spend) self e h =
      let (reduction, self1, first, later) = Exec.>>=-eq-ok (reduce_limit w storage c) _ self h in
      absurd (ground arith)

  pub reset_period-no_limit :
      (current_time : Timestamp) (self : HotWallet) {self' : HotWallet}
      → self.spend_limits ≡ []
      → reset_period w current_time self ≢ (ok tt, self')
  unfolding reset_period reset_limits set_remaining
  reset_period-no_limit current_time self e h = ground arith

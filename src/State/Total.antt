-- ===== src/State/Total.antt =====
-- The spends of src/state.rs end with a result or an error on hot wallets whose resets do.
use juno_alpha_proxy_contrac.Common.{
  String, ap, subst, inl, inr, List, Result, arith, find?, Returns, Option-cases, Bool-cases,
}
use juno_alpha_proxy_contrac.Common.Exec
use juno_alpha_proxy_contrac.Types.{Coin, Timestamp, HotWallet, State, ContractError}
use juno_alpha_proxy_contrac.World.{World, ChainReturns}
use juno_alpha_proxy_contrac.HotWallet.{should_reset, reset_period}
use juno_alpha_proxy_contrac.HotWallet.Total.{
  IsSteady, process_spend_vec-Returns, process_spend_vec-IsSteady, reset_period-Returns,
  reset_period-IsSteady,
}
use juno_alpha_proxy_contrac.State.{
  has_address, maybe_get_hot_wallet_mut, update_wallet, check_and_update_spend_limits,
}
use juno_alpha_proxy_contrac.State.Every.{Every, Every-find?}

module _ (w : World) (storage : w.Storage) (current_time : Timestamp) (spend : List Coin) where
  pub update_wallet-IsSteady :
      Exec.Maintains (IsSteady w current_time) (update_wallet w storage current_time spend)
  unfolding update_wallet
  update_wallet-IsSteady self h = elim (Bool-cases (should_reset w current_time self)) [
    | inl due ↦ rw due (
        Exec.Maintains-bind (IsSteady w current_time) (reset_period w current_time) _
          (reset_period-IsSteady w current_time)
          (λ _. process_spend_vec-IsSteady w current_time storage spend) self h)
    | inr running ↦ rw running (process_spend_vec-IsSteady w current_time storage spend self h)
  ]

  update_wallet-Returns :
      ChainReturns w
      → (self : HotWallet) → IsSteady w current_time self
      → Returns (update_wallet w storage current_time spend self).0
  unfolding update_wallet
  update_wallet-Returns chain_returns self h =
      elim (Bool-cases (should_reset w current_time self)) [
        | inl due ↦ rw due (
            Exec.Returns-bind (reset_period w current_time) _ self
              (reset_period-Returns w current_time chain_returns self h)
              (λ done self1 e.
                process_spend_vec-Returns w chain_returns storage spend self1
                  (subst (IsSteady w current_time)
                    (ap (λ (p : Result ContractError (Unit {0}) × HotWallet). p.1) e)
                    (reset_period-IsSteady w current_time self h)).sound))
        | inr running ↦
            rw running (process_spend_vec-Returns w chain_returns storage spend self h.sound)
      ]

  pub check_and_update_spend_limits-Returns :
      ChainReturns w
      → (addr : String) (self : State) → Every (IsSteady w current_time) self.hot_wallets
      → Returns (check_and_update_spend_limits w storage current_time addr spend self).0
  unfolding check_and_update_spend_limits maybe_get_hot_wallet_mut
  check_and_update_spend_limits-Returns chain_returns addr self all =
      elim (Option-cases (find? (has_address addr) self.hot_wallets)) [
        | inl missing ↦ ground arith
        | inr (wal, found) ↦ ground (
          arith,
          update_wallet-Returns chain_returns wal
              (Every-find? (IsSteady w current_time) addr self.hot_wallets found all),
        )
      ]

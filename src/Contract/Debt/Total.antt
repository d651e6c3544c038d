-- ===== src/Contract/Debt/Total.antt =====
-- The repayment and the check of coins in src/contract.rs end with a result or an error.
use juno_alpha_proxy_contrac.Common.{
  ℕ, ◌≡◌, sym, subst, inl, inr, true, Option, List, [], ◌∷◌, ok, arith, Returns, Bool-cases, ltb,
}
use juno_alpha_proxy_contrac.Common.Exec
use juno_alpha_proxy_contrac.Common.Outcome
use juno_alpha_proxy_contrac.Types.{Coin, SourcedCoin, State, CorePayload, SourcedRepayMsg}
use juno_alpha_proxy_contrac.World.{World, StoreLaws, ChainReturns}
use juno_alpha_proxy_contrac.SourcedCoin.Total.{get_converted_to_usdc-Returns}
use juno_alpha_proxy_contrac.HotWallet.{no_sources}
use juno_alpha_proxy_contrac.HotWallet.Total.{IsSteady}
use juno_alpha_proxy_contrac.State.{check_and_update_spend_limits}
use juno_alpha_proxy_contrac.State.Every.{Every}
use juno_alpha_proxy_contrac.State.Total.{check_and_update_spend_limits-Returns}
use juno_alpha_proxy_contrac.Contract.Debt.{
  convert_debt_to_asset_spent, try_repay_debt, debt_cycle, no_debt_left, repay_from, spent_state,
  save_spent, check_coins,
}
use juno_alpha_proxy_contrac.Contract.Debt.Repay.{debt_free, repay_from-ok}

module _ (w : World) (chain_returns : ChainReturns w) where
  convert_debt_to_asset_spent-Returns :
      (storage : w.Storage) (usd_debt : ℕ) (asset : Coin)
      → Returns (convert_debt_to_asset_spent w storage usd_debt asset)
  unfolding convert_debt_to_asset_spent
  convert_debt_to_asset_spent-Returns storage usd_debt asset =
      let of_debt : SourcedCoin = record {
        coin = record { denom = asset.denom; amount = usd_debt };
        wrapped_sources = no_sources;
      } in
      ground (arith, get_converted_to_usdc-Returns w chain_returns storage of_debt true)

  try_repay_debt-Returns :
      (asset : Coin) (storage : w.Storage) → Returns (try_repay_debt w asset storage).0
  unfolding try_repay_debt
  try_repay_debt-Returns asset storage = elim (Outcome.Result-cases (w.load storage)) [
    | inl (cfg, loaded) ↦ ground (
      arith,
      convert_debt_to_asset_spent-Returns storage cfg.uusd_fee_debt asset,
      chain_returns.save (debt_free cfg) storage,
    )
    | inr (inl (x, failed)) ↦ ground arith
    | inr (inr aborted) ↦ absurd (subst Returns aborted (chain_returns.load storage))
  ]

  debt_cycle-Returns :
      (coins : List Coin) (storage : w.Storage) → Returns (debt_cycle w coins storage).0
  unfolding debt_cycle
  debt_cycle-Returns [] storage = tt
  debt_cycle-Returns (c ∷ coins) storage =
      let p = try_repay_debt w c storage in
      ground (arith, try_repay_debt-Returns c storage, debt_cycle-Returns coins p.1)

  no_debt_left-Returns :
      (r : Option SourcedRepayMsg) (storage : w.Storage) → Returns (no_debt_left w r storage).0
  unfolding no_debt_left
  no_debt_left-Returns r storage = ground (arith, chain_returns.load storage)

  pub repay_from-Returns :
      (cfg : State) (spend : List Coin) (storage : w.Storage)
      → Returns (repay_from w cfg spend storage).0
  unfolding repay_from
  repay_from-Returns cfg spend storage = elim (Bool-cases (ltb 0 cfg.uusd_fee_debt)) [
    | inl debt ↦ rw debt (
        Exec.Returns-bind (debt_cycle w spend) (no_debt_left w) storage
          (debt_cycle-Returns spend storage) (λ r s1 e. no_debt_left-Returns r s1))
    | inr free ↦ rw free tt
  ]

module _ (w : World) (chain_returns : ChainReturns w) (payload : CorePayload)
    (spend : List Coin) where
  save_spent-Returns :
      (p : Option SourcedRepayMsg × State) (storage : w.Storage)
      → Every (IsSteady w payload.current_time) p.1.hot_wallets
      → Returns (save_spent w payload spend p storage).0
  unfolding save_spent spent_state
  save_spent-Returns p storage all =
      let q =
        check_and_update_spend_limits w storage payload.current_time payload.info.sender spend
          p.1 in
      ground (
        arith,
        check_and_update_spend_limits-Returns w storage payload.current_time spend chain_returns
            payload.info.sender p.1 all,
        chain_returns.save q.1 storage,
      )

  pub check_coins-Returns :
      StoreLaws w
      → (storage : w.Storage) (cfg : State) → w.load storage ≡ ok cfg
      → Every (IsSteady w payload.current_time) cfg.hot_wallets
      → Returns (check_coins w payload spend storage).0
  unfolding check_coins
  check_coins-Returns laws storage cfg loaded all = rw loaded (
      Exec.Returns-bind (repay_from w cfg spend) (save_spent w payload spend) storage
        (repay_from-Returns w chain_returns cfg spend storage)
        (λ p s1 e. save_spent-Returns p s1 (
          subst (λ (s : State). Every (IsSteady w payload.current_time) s.hot_wallets)
            (sym (repay_from-ok w laws cfg spend storage loaded e).0) all)))

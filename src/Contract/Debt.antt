-- ===== src/Contract/Debt.antt =====
-- src/contract.rs: the fee debt is repaid from the coins of a spend, then the spend is checked.
pub mod Repay
pub mod Total
use juno_alpha_proxy_contrac.Common.{
  ℕ, ◌||◌, Bool, Option, none, some, List, [], ◌∷◌, Result, ok, err, panic, ltb, if◌then◌else◌,
  ◌==◌, to_string,
}
use juno_alpha_proxy_contrac.Common.Outcome
use juno_alpha_proxy_contrac.Common.Exec.{Exec, reads, fail, pure, ◌>>=◌, ◌>>◌}
use juno_alpha_proxy_contrac.Types.{
  BankMsg, Coin, SourcedCoin, State, CorePayload, SourcedRepayMsg, ContractError, repay_fees_first,
  unable_to_repay_debt,
}
use juno_alpha_proxy_contrac.World.{World}
use juno_alpha_proxy_contrac.Constants.{mainnet_axlusdc_ibc}
use juno_alpha_proxy_contrac.SourcedCoin.{get_converted_to_usdc}
use juno_alpha_proxy_contrac.HotWallet.{no_sources}
use juno_alpha_proxy_contrac.State.{check_and_update_spend_limits}
use juno_alpha_proxy_contrac.Contract.Storage.{load, save}

module _ (w : World) where
  unfoldable pub convert_debt_to_asset_spent :
      w.Storage → ℕ → Coin → Result ContractError SourcedCoin
  convert_debt_to_asset_spent storage usd_debt asset =
      if asset.denom == mainnet_axlusdc_ibc
      then ok (record {
        coin = record { denom = mainnet_axlusdc_ibc; amount = usd_debt };
        wrapped_sources = no_sources;
      })
      else if asset.denom == "ujuno" || asset.denom == "ujunox" || asset.denom == "testtokens"
      then get_converted_to_usdc w storage
          (record {
            coin = record { denom = asset.denom; amount = usd_debt };
            wrapped_sources = no_sources;
          })
          Bool.true
      else err (repay_fees_first usd_debt)

  unfoldable pub try_repay_debt : Coin → Exec w.Storage ContractError SourcedRepayMsg
  try_repay_debt asset = do
    cfg ← load w
    swaps ← reads (λ storage. convert_debt_to_asset_spent storage cfg.uusd_fee_debt asset)
    save w (record cfg { uusd_fee_debt = 0 })
    pure (record {
      repay_msg = some (BankMsg.send cfg.fee_lend_repay_wallet (swaps.coin ∷ []));
      wrapped_sources = swaps.wrapped_sources;
    })

  -- `if let Ok(msg) = … { sourced_repay = Some(msg); break }`, and the rest of the cycle otherwise
  abbrev pub paid_or :
      Result ContractError SourcedRepayMsg
      → Exec w.Storage ContractError (Option SourcedRepayMsg)
      → Exec w.Storage ContractError (Option SourcedRepayMsg)
  paid_or (ok msg) next storage = (ok (some msg), storage)
  paid_or (err _) next storage = next storage
  paid_or panic next storage = (panic, storage)

  -- the loop `'debt_cycle`: the first coin that can pay does
  unfoldable pub debt_cycle : List Coin → Exec w.Storage ContractError (Option SourcedRepayMsg)
  debt_cycle [] storage = (ok none, storage)
  debt_cycle (coin ∷ rest) storage =
      let (r, storage') = try_repay_debt coin storage in paid_or r (debt_cycle rest) storage'

  -- The check, after the cycle, that no debt is left.
  unfoldable pub no_debt_left :
      Option SourcedRepayMsg → Exec w.Storage ContractError (Option SourcedRepayMsg × State)
  no_debt_left sourced_repay = do
    updated_cfg ← load w
    if ltb 0 updated_cfg.uusd_fee_debt
        then fail (unable_to_repay_debt (to_string updated_cfg.uusd_fee_debt))
        else pure (sourced_repay, updated_cfg)

  -- The first half of `check_coins`: the repayment, if there is a debt, and the state after it.
  unfoldable pub repay_from :
      State → List Coin → Exec w.Storage ContractError (Option SourcedRepayMsg × State)
  repay_from cfg spend =
      if ltb 0 cfg.uusd_fee_debt then debt_cycle spend >>= no_debt_left else pure (none, cfg)

  -- The state after `check_and_update_spend_limits(…)?`.
  unfoldable pub spent_state :
      CorePayload → List Coin → State → w.Storage → Result ContractError State
  spent_state core_payload spend cfg storage =
      let (r, cfg') =
        check_and_update_spend_limits w storage core_payload.current_time core_payload.info.sender
          spend cfg in
      Outcome.◌>>=◌ r λ _. ok cfg'

  -- The second half of `check_coins`: the limits are checked, and the state is saved.
  unfoldable pub save_spent :
      CorePayload
      → List Coin
      → Option SourcedRepayMsg × State
      → Exec w.Storage ContractError (Option SourcedRepayMsg)
  save_spent core_payload spend repaid = do
    updated_cfg ← reads (spent_state core_payload spend repaid.1)
    save w updated_cfg
    pure repaid.0

  unfoldable pub check_coins :
      CorePayload → List Coin → Exec w.Storage ContractError (Option SourcedRepayMsg)
  check_coins core_payload spend = do
    cfg ← load w
    repaid ← repay_from cfg spend
    save_spent core_payload spend repaid

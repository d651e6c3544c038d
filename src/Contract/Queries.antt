-- ===== src/Contract/Queries.antt =====
-- src/contract.rs: the queries.
use juno_alpha_proxy_contrac.Common.{
  String, Bool, true, false, ◌&&◌, List, [], ◌∷◌, ok, err, panic, first, length, ltb, if◌then◌else◌,
}
use juno_alpha_proxy_contrac.Common.Outcome.{◌>>=◌}
use juno_alpha_proxy_contrac.Types.{
  BankMsg, Coin, CosmosMsg, StakingMsg, WasmMsg, Env, State, AdminResponse, CanExecuteResponse,
  CanSpendResponse, HotWalletsResponse, StdResult, generic_err,
}
use juno_alpha_proxy_contrac.World.{World}
use juno_alpha_proxy_contrac.State.{
  is_admin, is_active_hot_wallet, is_authorized_hotwallet_contract, check_spend_limits,
}
use juno_alpha_proxy_contrac.Contract.Spend.{is_empty}

-- The coins that a message would spend, or the reply that the query does not support it.
unfoldable pub spendable_funds : CosmosMsg → StdResult (List Coin)
spendable_funds (CosmosMsg.wasm (WasmMsg.execute contract_addr msg funds)) =
    err (generic_err "Spend-limit-based cw20 transfers not yet supported")
spendable_funds (CosmosMsg.bank (BankMsg.send to_address amount)) = ok amount
spendable_funds (CosmosMsg.staking (StakingMsg.delegate validator amount)) = ok (amount ∷ [])
spendable_funds CosmosMsg.custom = err (generic_err "Custom CosmosMsg not yet supported")
spendable_funds (CosmosMsg.distribution _) =
    err (generic_err "Distribution CosmosMsg not yet supported")
spendable_funds _ = err (generic_err "This CosmosMsg type not yet supported")

module _ (w : World) where
  unfoldable pub can_execute : w.Storage → String → StdResult Bool
  can_execute storage sender = do cfg ← w.load storage; ok (is_admin cfg sender)

  unfoldable pub query_admin : w.Storage → StdResult AdminResponse
  query_admin storage = do cfg ← w.load storage; ok (record { admin = cfg.admin })

  unfoldable pub query_pending : w.Storage → StdResult AdminResponse
  query_pending storage = do cfg ← w.load storage; ok (record { admin = cfg.pending })

  unfoldable pub query_can_execute : w.Storage → String → CosmosMsg → StdResult CanExecuteResponse
  unfolding can_execute
  query_can_execute storage sender msg = do
    can ← can_execute storage sender
    ok (record { can_execute = can })

  unfoldable pub query_hot_wallets : w.Storage → StdResult HotWalletsResponse
  query_hot_wallets storage = do cfg ← w.load storage; ok (record { hot_wallets = cfg.hot_wallets })

  abbrev yes_no : Bool → CanSpendResponse
  yes_no b = record { can_spend = b }

  -- `if let CosmosMsg::Wasm(WasmMsg::Execute { … }) = msgs[0].clone() { if … }`
  unfoldable pub is_authorized_msg : State → String → CosmosMsg → StdResult Bool
  is_authorized_msg cfg sender (CosmosMsg.wasm (WasmMsg.execute contract_addr msg funds)) = do
    addr ← w.addr_validate sender
    active ← is_active_hot_wallet cfg addr
    ok (active && is_authorized_hotwallet_contract contract_addr && is_empty funds)
  is_authorized_msg cfg sender _ = ok false

  unfoldable pub query_can_spend :
      w.Storage → Env → String → List CosmosMsg → StdResult CanSpendResponse
  query_can_spend storage env sender msgs = do
    cfg ← w.load storage
    if is_admin cfg sender
        then ok (yes_no true)
        else if ltb 1 (length msgs)
        then err (generic_err "Multi-message txes with hot wallets not supported yet")
        else do
          head ← first msgs
          authorized ← is_authorized_msg cfg sender head
          if authorized then ok (yes_no true) else do
            funds ← spendable_funds head
            elim (check_spend_limits w storage env.block.time sender funds cfg) [
              | ok _ ↦ ok (yes_no true)
              | err _ ↦ ok (yes_no false)
              | panic ↦ panic
            ]

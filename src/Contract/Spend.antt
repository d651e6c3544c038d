-- ===== src/Contract/Spend.antt =====
-- src/contract.rs: `Execute` and `SimExecute`, message by message.
pub mod Cases
pub mod Settings
pub mod Messages
pub mod Access
pub mod Simulated
pub mod Charges
pub mod Limit
pub mod Preserved
pub mod Others
pub mod Draws
pub mod Total
use juno_alpha_proxy_contrac.Common.{
  String, Bool, true, false, ◌&&◌, Option, none, some, List, [], ◌∷◌, ok, err, panic, first, eqb,
  if◌then◌else◌,
}
use juno_alpha_proxy_contrac.Common.Outcome
use juno_alpha_proxy_contrac.Common.Exec.{Exec, lift, fail, pure, ◌>>=◌, ◌>>◌}
use juno_alpha_proxy_contrac.Types.{
  Coin, CosmosMsg, WasmMsg, Env, MessageInfo, Response, new_response, add_message, add_messages,
  add_attribute, add_attributes, State, CorePayload, SourcedRepayMsg, PendingSubmsg, SubmsgType,
  WasmmsgType, ContractError, StdResult, only_transfer_send_allowed, bad_message_type, from_std,
}
use juno_alpha_proxy_contrac.World.{World}
use juno_alpha_proxy_contrac.Sources.{to_attributes}
use juno_alpha_proxy_contrac.State.{
  is_admin, is_active_hot_wallet, is_authorized_hotwallet_contract,
}
use juno_alpha_proxy_contrac.Submsgs.{add_funds, process_and_get_msg_type}
use juno_alpha_proxy_contrac.Contract.Storage.{load, action}
use juno_alpha_proxy_contrac.Contract.Debt.{check_coins}

-- The kinds whose coins are checked against the limits.
abbrev pub is_spend : SubmsgType → Bool
is_spend SubmsgType.bank_send = true
is_spend SubmsgType.bank_burn = true
is_spend (SubmsgType.execute_wasm WasmmsgType.cw20_transfer) = true
is_spend (SubmsgType.execute_wasm WasmmsgType.cw20_send) = true
is_spend (SubmsgType.execute_wasm WasmmsgType.cw20_burn) = true
is_spend (SubmsgType.execute_wasm WasmmsgType.cw20_increase_allowance) = true
is_spend _ = false

abbrev pub pending_submsg : CosmosMsg → PendingSubmsg
pending_submsg msg = record {
  msg = msg;
  contract_addr = none;
  binarymsg = none;
  funds = [];
  ty = SubmsgType.unknown;
}

-- `funds.is_empty()`
abbrev pub is_empty : List Coin → Bool
is_empty [] = true
is_empty (_ ∷ _) = false

-- The guard on the first message: a call of an authorized contract by a hot wallet, with no funds.
unfoldable pub is_authorized_call : State → MessageInfo → CosmosMsg → StdResult Bool
is_authorized_call cfg info (CosmosMsg.wasm (WasmMsg.execute contract_addr msg funds)) =
    if is_empty funds && is_authorized_hotwallet_contract contract_addr
    then is_active_hot_wallet cfg info.sender
    else ok false
is_authorized_call cfg info _ = ok false

-- The additions to the response for a message that is not simulated.
abbrev attach_repay : Option SourcedRepayMsg → Response → Response
attach_repay none res = res
attach_repay (some msg) res =
    add_attributes (to_attributes msg.wrapped_sources) (elim msg.repay_msg [
      | none ↦ res
      | some repay_msg ↦ add_message (CosmosMsg.bank repay_msg) res
    ])

abbrev pub attach : Bool → CosmosMsg → Option SourcedRepayMsg → Response → Response
attach simulation this_msg maybe_repay_msg res =
    add_attribute "action" "execute_spend_limit_or_debt"
      (if simulation then res else add_message this_msg (attach_repay maybe_repay_msg res))

module _ (w : World) where
  -- the `match` on the message's type
  unfoldable pub check_by_type :
      SubmsgType → List Coin → CorePayload → Exec w.Storage ContractError (Option SourcedRepayMsg)
  check_by_type SubmsgType.bank_send funds core_payload = check_coins w core_payload funds
  check_by_type SubmsgType.bank_burn funds core_payload = check_coins w core_payload funds
  check_by_type SubmsgType.unknown funds core_payload = fail (bad_message_type "unknown")
  check_by_type (SubmsgType.execute_wasm ty) funds core_payload =
      if is_spend (SubmsgType.execute_wasm ty) then check_coins w core_payload funds else do
        cfg ← load w
        if is_admin cfg core_payload.info.sender then pure none else fail only_transfer_send_allowed

  unfoldable pub check_and_spend_total_coins :
      CosmosMsg → CorePayload → Exec w.Storage ContractError (Option SourcedRepayMsg)
  check_and_spend_total_coins msg core_payload =
      let (r, processed_msg) =
        process_and_get_msg_type w (add_funds core_payload.info.funds (pending_submsg msg)) in
      lift r >>= λ ty. check_by_type ty processed_msg.funds core_payload

  -- the loop over the messages
  unfoldable pub execute_from :
      Bool → List CosmosMsg → CorePayload → Response → Exec w.Storage ContractError Response
  execute_from simulation [] core_payload res = pure res
  execute_from simulation (this_msg ∷ rest) core_payload res = do
    let payload = record core_payload { this_msg = this_msg }
    maybe_repay_msg ← check_and_spend_total_coins this_msg payload
    execute_from simulation rest payload (attach simulation this_msg maybe_repay_msg res)

  unfoldable pub execute_execute :
      Env → MessageInfo → List CosmosMsg → Bool → Exec w.Storage ContractError Response
  execute_execute env info msgs simulation = do
    cfg ← load w
    if eqb cfg.uusd_fee_debt 0 && is_admin cfg info.sender
        then pure (
            let res = action "execute_execute" in if simulation then res else add_messages msgs res)
        else do
          head ← lift (first msgs)
          authorized ← lift (from_std (is_authorized_call cfg info head))
          if authorized
              then pure (add_message head (action "execute_authorized_contract"))
              else execute_from simulation msgs
                  (record {
                    info = info;
                    this_msg = CosmosMsg.custom;
                    current_time = env.block.time;
                  })
                  new_response

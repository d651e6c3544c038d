-- ===== src/Tests/Transfers.antt =====
-- The theorems on transfers while there is no debt, and on the coins that a message moves.
use juno_alpha_proxy_contrac.Contract.Transfer.{execute_execute-IsOk_iff}
use juno_alpha_proxy_contrac.HotWallet.Spending.{Costs}
use juno_alpha_proxy_contrac.Common.{◌↔◌}
use juno_alpha_proxy_contrac.Common.{ℕ, ◌≡◌, refl, ◌≤◌, true, false, some, [], ◌∷◌, ok, IsOk}
use juno_alpha_proxy_contrac.Types.{CosmosMsg, WasmMsg, PendingSubmsg, SubmsgType, WasmmsgType}
use juno_alpha_proxy_contrac.HotWallet.{
  process_spend_vec, reduce_limit, simulate_reduce_limit, should_reset,
}
use juno_alpha_proxy_contrac.SourcedCoin.{get_converted_to_usdc}
use juno_alpha_proxy_contrac.Constants.{get_usdc_sourced_coin}
use juno_alpha_proxy_contrac.State.{
  is_admin, maybe_get_hot_wallet, maybe_get_hot_wallet_mut, update_wallet,
  check_and_update_spend_limits,
}
use juno_alpha_proxy_contrac.Submsgs.{
  add_funds, process_bank_type, process_execute_type, process_and_get_msg_type,
}
use juno_alpha_proxy_contrac.Submsgs.Counted.{moved, process_and_get_msg_type-moved}
use juno_alpha_proxy_contrac.Contract.Debt.{repay_from, spent_state, save_spent, check_coins}
use juno_alpha_proxy_contrac.Contract.Spend.{
  pending_submsg, is_authorized_call, check_by_type, check_and_spend_total_coins, execute_from,
  execute_execute,
}
use juno_alpha_proxy_contrac.Contract.CanSpend.{query_can_spend_complete}
use juno_alpha_proxy_contrac.Contract.Agreement.{query_can_spend_single}
use juno_alpha_proxy_contrac.Contract.Queries.{query_can_spend}
use juno_alpha_proxy_contrac.Tests.Chain.{chain, store, carol, with_debt, usdc, at_second, from}
use juno_alpha_proxy_contrac.Tests.Handlers.{pay_bob}

carol_pays_free :
    IsOk
      (execute_execute chain (at_second 1000) (from "carol") (pay_bob 100 ∷ []) false (store 0)).0
unfolding execute_execute is_admin is_authorized_call execute_from check_and_spend_total_coins
    add_funds process_and_get_msg_type process_bank_type check_by_type check_coins repay_from
    save_spent spent_state check_and_update_spend_limits maybe_get_hot_wallet_mut update_wallet
    should_reset process_spend_vec reduce_limit simulate_reduce_limit get_converted_to_usdc
    get_usdc_sourced_coin
carol_pays_free = tt

carol_wallet : maybe_get_hot_wallet (with_debt 0) "carol" ≡ ok carol
unfolding maybe_get_hot_wallet
carol_wallet = refl

carol_no_admin : is_admin (with_debt 0) "carol" ≡ false
unfolding is_admin
carol_no_admin = refl

query_can_spend_complete_example :
    query_can_spend chain (store 0) (at_second 1000) "carol" (pay_bob 100 ∷ [])
    ≡ ok (record { can_spend = true })
query_can_spend_complete_example =
    query_can_spend_complete chain (at_second 1000) (from "carol") "bob" (usdc 100 ∷ []) (store 0)
      (with_debt 0) refl refl carol_no_admin carol_wallet refl carol_pays_free

-- A cw20 transfer of 7 tokens with 5 USDC attached to the call, and what it held before dropped.
abbrev token_call : PendingSubmsg
token_call =
    record (pending_submsg (CosmosMsg.wasm (WasmMsg.execute "token" (7 ∷ []) (usdc 5 ∷ [])))) {
      funds = usdc 900 ∷ [];
    }

abbrev token_checked : PendingSubmsg
token_checked = record {
  msg = token_call.msg;
  contract_addr = some "token";
  binarymsg = some (7 ∷ []);
  funds = usdc 5 ∷ record { amount = 7; denom = "token" } ∷ [];
  ty = SubmsgType.execute_wasm WasmmsgType.cw20_transfer;
}

token_typed :
    process_and_get_msg_type chain token_call
    ≡ (ok (SubmsgType.execute_wasm WasmmsgType.cw20_transfer), token_checked)
unfolding process_and_get_msg_type process_execute_type
token_typed = refl

process_and_get_msg_type-moved_example : token_checked.funds ≡ moved chain token_call.msg
process_and_get_msg_type-moved_example =
    process_and_get_msg_type-moved chain token_call token_typed (λ e. cc)

carol_running : should_reset chain 1000000000000 carol ≡ false
unfolding should_reset
carol_running = refl

execute_execute-IsOk_iff_example :
    IsOk
      (execute_execute chain (at_second 1000) (from "carol") (pay_bob 100 ∷ []) false (store 0)).0
    ↔ ((n : ℕ) × Costs chain (store 0) (usdc 100 ∷ []) n × (n ≤ 300))
execute_execute-IsOk_iff_example =
    execute_execute-IsOk_iff chain (at_second 1000) (from "carol") "bob" (usdc 100 ∷ []) (store 0)
      (with_debt 0) refl refl (λ s. tt) carol_no_admin carol_wallet refl carol_running

query_can_spend_single_example :
    (query_can_spend chain (store 0) (at_second 1000) "carol" (pay_bob 100 ∷ [])
      ≡ ok (record { can_spend = true }))
    ↔ IsOk
        (execute_execute chain (at_second 1000) (from "carol") (pay_bob 100 ∷ []) false (store 0)).0
query_can_spend_single_example =
    query_can_spend_single chain (at_second 1000) (from "carol") "bob" (usdc 100) (store 0)
      (with_debt 0) refl refl (λ s. tt) carol_no_admin carol_wallet refl carol_running

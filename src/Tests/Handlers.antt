-- ===== src/Tests/Handlers.antt =====
-- The theorems on spending at a call of carol, who pays bob while there is a debt.
use juno_alpha_proxy_contrac.Common.{
  ℕ, String, ◌≡◌, refl, ◌⊎◌, true, false, some, [], ◌∷◌, ok, IsOk,
}
use juno_alpha_proxy_contrac.Types.{
  BankMsg, CosmosMsg, Response, State, CorePayload, SourcedRepayMsg, Attribute,
}
use juno_alpha_proxy_contrac.HotWallet.{
  make_usdc_sourced_coin, process_spend_vec, reduce_limit, simulate_reduce_limit, should_reset,
  no_sources,
}
use juno_alpha_proxy_contrac.SourcedCoin.{get_converted_to_usdc}
use juno_alpha_proxy_contrac.Sources.{append_sources, to_attributes}
use juno_alpha_proxy_contrac.Constants.{get_usdc_sourced_coin}
use juno_alpha_proxy_contrac.State.{
  is_admin, maybe_get_hot_wallet_mut, update_wallet, check_and_update_spend_limits,
}
use juno_alpha_proxy_contrac.State.Spending.{settings}
use juno_alpha_proxy_contrac.Submsgs.{add_funds, process_bank_type, process_and_get_msg_type}
use juno_alpha_proxy_contrac.Contract.Debt.{
  convert_debt_to_asset_spent, try_repay_debt, debt_cycle, no_debt_left, repay_from, spent_state,
  save_spent, check_coins,
}
use juno_alpha_proxy_contrac.Contract.Debt.Repay.{Settled, check_coins-settles}
use juno_alpha_proxy_contrac.Contract.Spend.{
  is_authorized_call, check_by_type, check_and_spend_total_coins, execute_from, execute_execute,
}
use juno_alpha_proxy_contrac.Contract.Spend.Settings.{SameSettings, execute_execute-SameSettings}
use juno_alpha_proxy_contrac.Contract.Spend.Access.{IsStranger, execute_execute-stranger}
use juno_alpha_proxy_contrac.Contract.Spend.Messages.{
  Carried, HeadOnly, execute_execute-carries, execute_execute-simulates,
}
use juno_alpha_proxy_contrac.Contract.Spend.Simulated.{outcome, execute_execute-simulation_agrees}
use juno_alpha_proxy_contrac.Tests.Chain.{
  chain, chain-StoreLaws, store, store_left, with_debt, usdc, at_second, from,
}

abbrev pub pay_bob : ℕ → CosmosMsg
pay_bob n = CosmosMsg.bank (BankMsg.send "bob" (usdc n ∷ []))

abbrev pub logged : String → Attribute
logged value = record { key = "action"; value = value }

-- carol pays with a debt of 40: the lender gets 40, then bob 100.
abbrev pub paid_response : Response
paid_response = record {
  messages = CosmosMsg.bank (BankMsg.send "lender" (usdc 40 ∷ [])) ∷ pay_bob 100 ∷ [];
  attributes = logged "execute_spend_limit_or_debt" ∷ [];
  events = [];
}

pub carol_pays :
    execute_execute chain (at_second 1000) (from "carol") (pay_bob 100 ∷ []) false (store 40)
    ≡ (ok paid_response, store_left 200)
unfolding execute_execute is_admin is_authorized_call execute_from check_and_spend_total_coins
    add_funds process_and_get_msg_type process_bank_type check_by_type check_coins repay_from
    debt_cycle try_repay_debt convert_debt_to_asset_spent no_debt_left save_spent spent_state
    check_and_update_spend_limits maybe_get_hot_wallet_mut update_wallet should_reset
    process_spend_vec reduce_limit simulate_reduce_limit get_converted_to_usdc get_usdc_sourced_coin
    append_sources make_usdc_sourced_coin to_attributes
carol_pays = refl

execute_execute-SameSettings_example : SameSettings chain (store_left 200) (with_debt 40)
execute_execute-SameSettings_example =
    execute_execute-SameSettings chain chain-StoreLaws (at_second 1000) (from "carol")
      (pay_bob 100 ∷ []) false (store 40) (with_debt 40) refl carol_pays

execute_execute-carries_example :
    Carried "lender" true (pay_bob 100 ∷ []) paid_response.messages
    ⊎ HeadOnly (with_debt 40) (from "carol") (pay_bob 100 ∷ []) paid_response
execute_execute-carries_example =
    execute_execute-carries chain chain-StoreLaws (at_second 1000) (from "carol") (pay_bob 100 ∷ [])
      (store 40) (with_debt 40) refl carol_pays

abbrev simulated_response : Response
simulated_response = record {
  messages = [];
  attributes = logged "execute_spend_limit_or_debt" ∷ [];
  events = [];
}

carol_simulates :
    execute_execute chain (at_second 1000) (from "carol") (pay_bob 100 ∷ []) true (store 40)
    ≡ (ok simulated_response, store_left 200)
unfolding execute_execute is_admin is_authorized_call execute_from check_and_spend_total_coins
    add_funds process_and_get_msg_type process_bank_type check_by_type check_coins repay_from
    debt_cycle try_repay_debt convert_debt_to_asset_spent no_debt_left save_spent spent_state
    check_and_update_spend_limits maybe_get_hot_wallet_mut update_wallet should_reset
    process_spend_vec reduce_limit simulate_reduce_limit get_converted_to_usdc get_usdc_sourced_coin
    append_sources make_usdc_sourced_coin to_attributes
carol_simulates = refl

execute_execute-simulates_example :
    (simulated_response.messages ≡ [])
    ⊎ HeadOnly (with_debt 40) (from "carol") (pay_bob 100 ∷ []) simulated_response
execute_execute-simulates_example =
    execute_execute-simulates chain chain-StoreLaws (at_second 1000) (from "carol")
      (pay_bob 100 ∷ []) (store 40) (with_debt 40) refl carol_simulates

execute_execute-simulation_agrees_example :
    outcome
      (execute_execute chain (at_second 1000) (from "carol") (pay_bob 100 ∷ []) true (store 40))
    ≡ outcome
        (execute_execute chain (at_second 1000) (from "carol") (pay_bob 100 ∷ []) false (store 40))
execute_execute-simulation_agrees_example =
    execute_execute-simulation_agrees chain (at_second 1000) (from "carol") (pay_bob 100 ∷ [])
      (store 40)

mallory-IsStranger : IsStranger (with_debt 40) "mallory"
unfolding is_admin
mallory-IsStranger = record { not_admin = refl; not_wallet = refl }

execute_execute-stranger_example :
    ¬ IsOk
      (execute_execute chain (at_second 1000) (from "mallory") (pay_bob 1 ∷ []) false (store 40)).0
execute_execute-stranger_example =
    execute_execute-stranger chain chain-StoreLaws (at_second 1000) (from "mallory")
      (pay_bob 1 ∷ []) false (store 40) (with_debt 40) refl mallory-IsStranger

abbrev carol_payload : CorePayload
carol_payload = record { info = from "carol"; this_msg = pay_bob 100; current_time = 1000000000000 }

abbrev lender_paid : SourcedRepayMsg
lender_paid = record {
  repay_msg = some (BankMsg.send "lender" (usdc 40 ∷ []));
  wrapped_sources = no_sources;
}

carol_checked :
    check_coins chain carol_payload (usdc 100 ∷ []) (store 40)
    ≡ (ok (some lender_paid), store_left 200)
unfolding is_admin check_coins repay_from debt_cycle try_repay_debt convert_debt_to_asset_spent
    no_debt_left save_spent spent_state check_and_update_spend_limits maybe_get_hot_wallet_mut
    update_wallet should_reset process_spend_vec reduce_limit simulate_reduce_limit
    get_converted_to_usdc get_usdc_sourced_coin append_sources make_usdc_sourced_coin
carol_checked = refl

check_coins-settles_example :
    ((cfg' : State) × (chain.load (store_left 200) ≡ ok cfg')
      × (cfg'.uusd_fee_debt ≡ 0)
      × (settings cfg' ≡ settings (with_debt 40)))
    × Settled chain (store 40) (with_debt 40) (usdc 100 ∷ []) (some lender_paid)
check_coins-settles_example =
    check_coins-settles chain chain-StoreLaws carol_payload (usdc 100 ∷ []) (store 40)
      (with_debt 40) refl carol_checked

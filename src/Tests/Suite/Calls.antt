-- ===== src/Tests/Suite/Calls.antt =====
-- src/tests_contract.rs: the contract changes hands, answers who may execute, and pays its debt.
use juno_alpha_proxy_contrac.Common.{true, false, ◌≡◌, refl, [], ◌∷◌, ok, err, IsOk, to_string}
use juno_alpha_proxy_contrac.Types.{
  StakingMsg, CosmosMsg, ExecuteMsg, unauthorized, hot_wallet_does_not_exist,
}
use juno_alpha_proxy_contrac.Constants.{mainnet_axlusdc_ibc}
use juno_alpha_proxy_contrac.Contract.{execute}
use juno_alpha_proxy_contrac.Contract.Start.{assert_all_valid, signers_event, instantiate}
use juno_alpha_proxy_contrac.Contract.Spend.{
  is_authorized_call, check_by_type, check_and_spend_total_coins, execute_from, execute_execute,
}
use juno_alpha_proxy_contrac.Contract.Queries.{can_execute, query_admin, query_can_execute}
use juno_alpha_proxy_contrac.PairTable.{set_pair_contracts, find_pair_contract, get_pair_contract}
use juno_alpha_proxy_contrac.PairContract.{create_query_msg, process_query, query_contract}
use juno_alpha_proxy_contrac.Simulation.{format_query_msg}
use juno_alpha_proxy_contrac.SourcedCoin.{
  get_converted_to_usdc, get_price_from_simulation, simulate_reverse_swap,
}
use juno_alpha_proxy_contrac.Sources.{to_attributes}
use juno_alpha_proxy_contrac.HotWallet.{assert_is_valid}
use juno_alpha_proxy_contrac.State.{
  is_admin, is_pending, maybe_get_hot_wallet_mut, check_and_update_spend_limits,
}
use juno_alpha_proxy_contrac.Submsgs.{add_funds, process_bank_type, process_and_get_msg_type}
use juno_alpha_proxy_contrac.Contract.Admin.{
  propose_update_admin, execute_update_admin, confirm_update_admin,
}
use juno_alpha_proxy_contrac.Contract.Debt.{
  convert_debt_to_asset_spent, try_repay_debt, debt_cycle, no_debt_left, repay_from, spent_state,
  save_spent, check_coins,
}
use juno_alpha_proxy_contrac.Tests.Suite.LocalChain.{get_test_sourced_coin, local_chain}
use juno_alpha_proxy_contrac.Tests.Suite.Helpers.{
  admin, current_env, instantiate_contract, signer, HasEvent, runs, send, without_debt, HasMessages,
  HasAction,
}

abbrev InstantiateAndModifyAdmin : Type 0
InstantiateAndModifyAdmin =
    let (started, s0) =
      instantiate_contract current_env (record { amount = 0; denom = "ujunox" }) in
    let (by_anyone, s1) = runs (ExecuteMsg.propose_update_admin "anyone") "anyone" s0 in
    let (proposed, s2) = runs (ExecuteMsg.propose_update_admin "bob") admin s1 in
    let (confirmed, s3) =
      runs (ExecuteMsg.confirm_update_admin ("test_confirm_admin" ∷ [])) "bob" s2 in
    HasEvent started (signer "testsigner1" ∷ signer "testsigner2" ∷ signer "testsigner3" ∷ [])
    × (query_admin local_chain s0 ≡ ok (record { admin = "alice" }))
    × (by_anyone ≡ err unauthorized)
    × IsOk proposed
    × (query_admin local_chain s2 ≡ ok (record { admin = "alice" }))
    × HasEvent confirmed (signer "test_confirm_admin" ∷ [])
    × (query_admin local_chain s3 ≡ ok (record { admin = "bob" }))

instantiate_and_modify_admin : InstantiateAndModifyAdmin
unfolding instantiate assert_all_valid assert_is_valid set_pair_contracts signers_event execute
    propose_update_admin confirm_update_admin execute_update_admin is_admin is_pending query_admin
instantiate_and_modify_admin = (refl, refl, refl, tt, refl, refl, refl)

abbrev ExecuteMessagesHasProperPermissions : Type 0
ExecuteMessagesHasProperPermissions =
    let msgs = send "diane" "DAI" 10_000 ∷ [] in
    let (by_receiver, s1) = runs (ExecuteMsg.execute msgs) "diane" without_debt in
    let (by_admin, _) = runs (ExecuteMsg.execute msgs) admin s1 in
    (by_receiver ≡ err hot_wallet_does_not_exist)
    × HasMessages by_admin msgs
    × HasAction by_admin "execute_execute"

execute_messages_has_proper_permissions : ExecuteMessagesHasProperPermissions
unfolding instantiate assert_all_valid assert_is_valid set_pair_contracts signers_event execute
    execute_execute is_admin is_authorized_call execute_from check_and_spend_total_coins add_funds
    process_and_get_msg_type process_bank_type check_by_type check_coins repay_from save_spent
    spent_state check_and_update_spend_limits maybe_get_hot_wallet_mut
execute_messages_has_proper_permissions = (refl, refl, refl)

abbrev CanExecuteQueryWorks : Type 0
CanExecuteQueryWorks =
    let send_msg = send "anyone" "ushell" 12_345 in
    let staking_msg =
      CosmosMsg.staking
        (StakingMsg.delegate "anyone" (record { denom = "ureef"; amount = 70_000 })) in
    (query_can_execute local_chain without_debt admin send_msg ≡ ok (record { can_execute = true }))
    × (query_can_execute local_chain without_debt admin staking_msg
        ≡ ok (record { can_execute = true }))
    × (query_can_execute local_chain without_debt "anyone" send_msg
        ≡ ok (record { can_execute = false }))
    × (query_can_execute local_chain without_debt "anyone" staking_msg
        ≡ ok (record { can_execute = false }))

can_execute_query_works : CanExecuteQueryWorks
unfolding instantiate assert_all_valid assert_is_valid set_pair_contracts signers_event
    query_can_execute can_execute is_admin
can_execute_query_works = (refl, refl, refl, refl)

abbrev RepayFeeDebt : Type 0
RepayFeeDebt =
    let (started, s0) =
      instantiate_contract current_env
        (record { amount = 1_000_000; denom = mainnet_axlusdc_ibc }) in
    let msgs = send "diane" "testtokens" 10_000 ∷ [] in
    let (repays, s1) = runs (ExecuteMsg.execute msgs) admin s0 in
    let (sends, _) = runs (ExecuteMsg.execute msgs) admin s1 in
    IsOk started
    × HasMessages repays (send "test_repay_address" "testtokens" 100 ∷ msgs)
    × HasMessages sends msgs

repay_fee_debt : RepayFeeDebt
unfolding instantiate assert_all_valid assert_is_valid set_pair_contracts signers_event execute
    execute_execute is_admin is_authorized_call execute_from check_and_spend_total_coins add_funds
    process_and_get_msg_type process_bank_type check_by_type check_coins repay_from debt_cycle
    try_repay_debt convert_debt_to_asset_spent no_debt_left get_converted_to_usdc
    simulate_reverse_swap get_price_from_simulation get_pair_contract find_pair_contract
    query_contract create_query_msg process_query format_query_msg get_test_sourced_coin save_spent
    spent_state check_and_update_spend_limits to_attributes to_string
repay_fee_debt = (tt, refl, refl)

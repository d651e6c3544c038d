-- ===== src/Tests/Suite/Wallets.antt =====
-- src/tests_contract.rs: hot wallets are added, spend up to their limits and are removed.
use juno_alpha_proxy_contrac.Common.{
  String, true, false, ◌≡◌, refl, Option, List, [], ◌∷◌, ok, err, panic, IsOk, map, to_string,
}
use juno_alpha_proxy_contrac.Types.{
  DistributionMsg, WasmMsg, CosmosMsg, HotWallet, days, ExecuteMsg, State, StdResult,
  CanSpendResponse,
}
use juno_alpha_proxy_contrac.Contract.{execute}
use juno_alpha_proxy_contrac.Contract.Start.{assert_all_valid, signers_event, instantiate}
use juno_alpha_proxy_contrac.Contract.Spend.{
  is_authorized_call, check_by_type, check_and_spend_total_coins, execute_from, execute_execute,
}
use juno_alpha_proxy_contrac.Contract.Queries.{
  spendable_funds, is_authorized_msg, query_hot_wallets, query_can_spend,
}
use juno_alpha_proxy_contrac.PairTable.{set_pair_contracts, find_pair_contract, get_pair_contract}
use juno_alpha_proxy_contrac.PairContract.{create_query_msg, process_query, query_contract}
use juno_alpha_proxy_contrac.Simulation.{format_query_msg}
use juno_alpha_proxy_contrac.SourcedCoin.{
  get_converted_to_usdc, get_price_from_simulation, simulate_swap,
}
use juno_alpha_proxy_contrac.Sources.{append_sources}
use juno_alpha_proxy_contrac.HotWallet.{
  assert_is_valid, should_reset, set_remaining, simulate_reduce_limit, reduce_limit,
  process_spend_vec, check_spend_vec, make_usdc_sourced_coin,
}
use juno_alpha_proxy_contrac.State
use juno_alpha_proxy_contrac.Contract.Wallets
use juno_alpha_proxy_contrac.State.{
  is_admin, is_pending, maybe_get_hot_wallet, maybe_get_hot_wallet_mut, update_wallet,
  check_and_update_spend_limits, check_spend_limits, is_active_hot_wallet,
  is_authorized_hotwallet_contract,
}
use juno_alpha_proxy_contrac.Submsgs.{add_funds, process_bank_type, process_and_get_msg_type}
use juno_alpha_proxy_contrac.Contract.Debt.{repay_from, spent_state, save_spent, check_coins}
use juno_alpha_proxy_contrac.Tests.Suite.LocalChain.{get_test_sourced_coin, IsErr, local_chain}
use juno_alpha_proxy_contrac.Tests.Suite.Helpers.{
  admin, hot_wallet, current_env, info_of, runs, add_test_hotwallet, send, test_spend_bank,
  without_debt,
}

abbrev can_spend : List CosmosMsg → Option State → StdResult CanSpendResponse
can_spend msgs storage = query_can_spend local_chain storage current_env hot_wallet msgs

-- The addresses of the hot wallets that the query returns.
abbrev HasWallets : Option State → List String → Type 0
HasWallets storage addresses = elim (query_hot_wallets local_chain storage) [
  | ok res ↦ map (λ (x : HotWallet). x.address) res.hot_wallets ≡ addresses
  | err e ↦ ⊥
  | panic ↦ ⊥
]

-- A call of the contract that hot wallets may make, with its message in whatever bytes.
abbrev authorized_call : CosmosMsg
authorized_call =
    CosmosMsg.wasm
      (WasmMsg.execute "juno1x5xz6wu8qlau8znmc60tmazzj3ta98quhk7qkamul3am2x8fsaqqcwy7n9" [] [])

abbrev AddSpendRmHotWallet : Type 0
AddSpendRmHotWallet =
    let s0 = without_debt in
    let (spent, s1) =
      test_spend_bank current_env "diane" "testtokens" 9_000 (info_of hot_wallet) s0 in
    let (added, s2) =
      add_test_hotwallet "hot_diane" current_env (info_of admin) 1 days 1_000_000 s1 in
    let (by_anyone, s3) = runs (ExecuteMsg.rm_hot_wallet hot_wallet) "anyone" s2 in
    let (removed, s4) = runs (ExecuteMsg.rm_hot_wallet hot_wallet) admin s3 in
    let (added_earl, s5) =
      add_test_hotwallet "hotearl" current_env (info_of admin) 1 days 100_000_000 s4 in
    let (small, s6) =
      test_spend_bank current_env "diane" "testtokens" 1_000 (info_of "hotearl") s5 in
    let (all, s7) =
      test_spend_bank current_env "diane" "testtokens" 999_000 (info_of "hotearl") s6 in
    let (over, _) = test_spend_bank current_env "diane" "testtokens" 1 (info_of "hotearl") s7 in
    HasWallets s0 (hot_wallet ∷ [])
    × (can_spend (send "diane" "testtokens" 9_000 ∷ []) s0 ≡ ok (record { can_spend = true }))
    × (can_spend (send "diane" "testtokens" 999_999_999_000 ∷ []) s0
        ≡ ok (record { can_spend = false }))
    × IsErr
        (can_spend (CosmosMsg.distribution (DistributionMsg.set_withdraw_address "diane") ∷ []) s0)
    × (can_spend (authorized_call ∷ []) s0 ≡ ok (record { can_spend = true }))
    × IsOk spent
    × IsOk added
    × HasWallets s2 (hot_wallet ∷ "hot_diane" ∷ [])
    × IsErr by_anyone
    × IsOk removed
    × HasWallets s4 ("hot_diane" ∷ [])
    × IsOk added_earl
    × HasWallets s5 ("hot_diane" ∷ "hotearl" ∷ [])
    × IsOk small
    × IsOk all
    × IsErr over

add_spend_rm_hot_wallet : AddSpendRmHotWallet
unfolding instantiate assert_all_valid assert_is_valid set_pair_contracts signers_event execute
    query_hot_wallets query_can_spend spendable_funds is_authorized_msg is_active_hot_wallet
    is_authorized_hotwallet_contract check_spend_limits maybe_get_hot_wallet check_spend_vec
    Wallets.add_hot_wallet Wallets.rm_hot_wallet State.add_hot_wallet State.rm_hot_wallet
    execute_execute is_admin is_authorized_call execute_from check_and_spend_total_coins add_funds
    process_and_get_msg_type process_bank_type check_by_type check_coins repay_from
    get_converted_to_usdc simulate_swap get_price_from_simulation get_pair_contract
    find_pair_contract query_contract create_query_msg process_query format_query_msg
    get_test_sourced_coin save_spent spent_state check_and_update_spend_limits
    maybe_get_hot_wallet_mut update_wallet should_reset set_remaining simulate_reduce_limit
    reduce_limit process_spend_vec append_sources make_usdc_sourced_coin to_string
add_spend_rm_hot_wallet =
    (refl, refl, refl, tt, refl, tt, tt, refl, tt, tt, refl, tt, refl, tt, tt, tt)

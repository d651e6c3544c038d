-- ===== src/Tests/Suite/Limits.antt =====
-- src/tests_state.rs: the admin test, and spends against a limit by the day and by the month.
use juno_alpha_proxy_contrac.Common.{
  ℕ, ◌+◌, String, ◌≡◌, refl, true, false, Option, none, some, List, [], ◌∷◌, Result, IsOk,
}
use juno_alpha_proxy_contrac.Types.{
  Coin, HotWallet, PeriodType, days, months, State, SourcedCoin, ContractError,
}
use juno_alpha_proxy_contrac.Constants.{mainnet_axlusdc_ibc, get_usdc_sourced_coin}
use juno_alpha_proxy_contrac.PairTable.{get_local_pair_contracts}
use juno_alpha_proxy_contrac.SourcedCoin.{get_converted_to_usdc}
use juno_alpha_proxy_contrac.HotWallet.{
  should_reset, set_remaining, reset_limits, next_reset, reset_period, simulate_reduce_limit,
  reduce_limit, process_spend_vec, make_usdc_sourced_coin,
}
use juno_alpha_proxy_contrac.Sources.{append_sources}
use juno_alpha_proxy_contrac.State.{
  is_admin, maybe_get_hot_wallet_mut, update_wallet, check_and_update_spend_limits,
}
use juno_alpha_proxy_contrac.Tests.Chain.{ymd}
use juno_alpha_proxy_contrac.Tests.Suite.LocalChain.{IsErr, local_chain, from_seconds}

abbrev config_of : List HotWallet → State
config_of hot_wallets = record {
  admin = "bob";
  pending = "bob";
  hot_wallets = hot_wallets;
  uusd_fee_debt = 0;
  fee_lend_repay_wallet = "test_repay_address";
  home_network = "local";
  pair_contracts = get_local_pair_contracts;
}

abbrev IsAdmin : Type 0
IsAdmin = (is_admin (config_of []) "bob" ≡ true) × (is_admin (config_of []) "other" ≡ false)

is_admin_lem : IsAdmin
unfolding is_admin
is_admin_lem = (refl, refl)

-- Noon of a day, on the calendar of the chain.
abbrev noon : ℕ → ℕ → ℕ → ℕ
noon y m day = elim (ymd y m day) [ none ↦ 0 | some midnight ↦ midnight + 43_200 ]

abbrev owner_until : ℕ → PeriodType → ℕ → Option String → HotWallet
owner_until current_period_reset period_type period_multiple usdc_denom = record {
  address = "owner";
  current_period_reset = current_period_reset;
  period_type = period_type;
  period_multiple = period_multiple;
  spend_limits =
      record { amount = 100_000_000; denom = mainnet_axlusdc_ibc; limit_remaining = 100_000_000 }
      ∷ [];
  usdc_denom = usdc_denom;
  default = some true;
}

abbrev coin_of : String → ℕ → List Coin
coin_of denom amount = record { denom = denom; amount = amount } ∷ []

-- A spend at a second; no storage is read for USDC.
abbrev spends : ℕ → String → List Coin → State → Result ContractError SourcedCoin × State
spends now spender spend config =
    check_and_update_spend_limits local_chain none (from_seconds now) spender spend config

abbrev DailySpendLimit : Type 0
DailySpendLimit =
    let now = noon 2022 6 3 in
    let (first, config1) =
      spends now "owner" (coin_of mainnet_axlusdc_ibc 1_000_000)
        (config_of (owner_until now days 3 (some "true") ∷ [])) in
    let (stranger, config2) = spends now "medusa" (coin_of mainnet_axlusdc_ibc 1_000_000) config1 in
    let (over, config3) = spends now "owner" (coin_of mainnet_axlusdc_ibc 99_500_000) config2 in
    let (just_over, config4) =
      spends now "owner" (coin_of mainnet_axlusdc_ibc 99_000_001) config3 in
    let (later, config5) =
      spends (now + 259_206) "owner" (coin_of mainnet_axlusdc_ibc 100_000_000) config4 in
    IsOk first × IsErr stranger × IsErr over × IsErr just_over × IsOk later

daily_spend_limit : DailySpendLimit
unfolding check_and_update_spend_limits is_admin maybe_get_hot_wallet_mut update_wallet should_reset
    reset_period next_reset reset_limits set_remaining process_spend_vec reduce_limit
    simulate_reduce_limit get_converted_to_usdc get_usdc_sourced_coin append_sources
    make_usdc_sourced_coin
daily_spend_limit = (tt, tt, tt, tt, tt)

abbrev MonthlySpendLimit : Type 0
MonthlySpendLimit =
    let now = noon 2022 6 3 in
    let (first, config1) =
      spends now "owner" (coin_of mainnet_axlusdc_ibc 1_000_000)
        (config_of (owner_until now months 38 none ∷ [])) in
    let (stranger, config2) = spends now "medusa" (coin_of "ujuno" 1_000_000) config1 in
    let (just_over, config3) =
      spends now "owner" (coin_of mainnet_axlusdc_ibc 99_000_001) config2 in
    let (later, config4) =
      spends (noon 2025 8 1) "owner" (coin_of mainnet_axlusdc_ibc 99_000_001) config3 in
    IsOk first × IsErr stranger × IsErr just_over × IsOk later

monthly_spend_limit : MonthlySpendLimit
unfolding check_and_update_spend_limits is_admin maybe_get_hot_wallet_mut update_wallet should_reset
    reset_period next_reset reset_limits set_remaining process_spend_vec reduce_limit
    simulate_reduce_limit get_converted_to_usdc get_usdc_sourced_coin append_sources
    make_usdc_sourced_coin
monthly_spend_limit = (tt, tt, tt, tt)

-- ===== src/Tests/Wallets.antt =====
-- The hot wallets' theorems at a wallet with 300 of 1000 left.
use juno_alpha_proxy_contrac.Common.{
  ℕ, ◌≡◌, ◌≢◌, refl, ◌↔◌, ◌≤◌, ◌<◌, ◌-◌, false, [], ◌∷◌, String, panic, ok, err, arith, All, IsOk,
  to_string,
}
use Prim.Native.String.{◌++◌}
use juno_alpha_proxy_contrac.Types.{HotWallet, SourcedCoin}
use juno_alpha_proxy_contrac.SourcedCoin.{get_converted_to_usdc}
use juno_alpha_proxy_contrac.Constants.{get_usdc_sourced_coin}
use juno_alpha_proxy_contrac.HotWallet.{
  make_usdc_sourced_coin, process_spend_vec, check_spend_vec, reduce_limit, simulate_reduce_limit,
  reset_period, next_reset,
}
use juno_alpha_proxy_contrac.Sources.{append_sources}
use juno_alpha_proxy_contrac.HotWallet.Spending.{
  Costs, with_remaining, process_spend_vec-IsOk_iff, process_spend_vec-charges,
}
use juno_alpha_proxy_contrac.Tests.Chain.{
  chain, chain-ChronoLaws, store, carol, dave, carol_limit, carol_left, with_debt, usdc,
}
use juno_alpha_proxy_contrac.HotWallet.Checking.{
  FitsAlone, check_spend_vec-IsOk_iff, check_spend_vec-too_weak,
}
use juno_alpha_proxy_contrac.HotWallet.Spending.{free, pay}
use juno_alpha_proxy_contrac.HotWallet.Reset.{
  Restored, reset_period-restores, reset_period-later, reset_period-panics,
}
use juno_alpha_proxy_contrac.HotWallet.Validity.{IsValid, assert_is_valid_iff}
use juno_alpha_proxy_contrac.HotWallet.{assert_is_valid, should_reset}
use juno_alpha_proxy_contrac.State.{
  add_hot_wallet, rm_hot_wallet, maybe_get_hot_wallet, is_admin, check_and_update_spend_limits,
  update_wallet, maybe_get_hot_wallet_mut,
}
use juno_alpha_proxy_contrac.State.Wallets.{maybe_get_hot_wallet-add, maybe_get_hot_wallet-rm}
use juno_alpha_proxy_contrac.State.Spending.{Charged, check_and_update_spend_limits-charges}
use juno_alpha_proxy_contrac.Types.{PeriodType, State, hot_wallet_does_not_exist}

-- What a spend of USDC logs.
abbrev pub spent_usdc : ℕ → SourcedCoin
spent_usdc n = record {
  coin = usdc n;
  wrapped_sources = record {
    sources =
        record {
          contract_addr = "1 USDC is 1 USDC";
          query_msg = "converted " ++ to_string n ++ " to " ++ to_string n;
        }
        ∷ [];
  };
}

spend_100 :
    process_spend_vec chain (store 0) (usdc 100 ∷ []) carol ≡ (ok (spent_usdc 100), carol_left 200)
unfolding process_spend_vec reduce_limit simulate_reduce_limit get_converted_to_usdc
    get_usdc_sourced_coin append_sources make_usdc_sourced_coin
spend_100 = refl

process_spend_vec-IsOk_iff_example :
    IsOk (process_spend_vec chain (store 0) (usdc 100 ∷ []) carol).0
    ↔ ((n : ℕ) × Costs chain (store 0) (usdc 100 ∷ []) n × (n ≤ 300))
process_spend_vec-IsOk_iff_example =
    process_spend_vec-IsOk_iff chain (store 0) carol refl (usdc 100 ∷ [])

process_spend_vec-charges_example :
    (n : ℕ) × Costs chain (store 0) (usdc 100 ∷ []) n
    × (n ≤ 300)
    × (carol_left 200 ≡ with_remaining carol carol_limit [] (300 - n))
process_spend_vec-charges_example =
    process_spend_vec-charges chain (store 0) carol refl (usdc 100 ∷ []) spend_100

check_spend_vec-IsOk_iff_example :
    IsOk (check_spend_vec chain (store 0) (usdc 200 ∷ usdc 250 ∷ []) false carol)
    ↔ All (FitsAlone chain (store 0) 300) (usdc 200 ∷ usdc 250 ∷ [])
check_spend_vec-IsOk_iff_example =
    check_spend_vec-IsOk_iff chain (store 0) carol false refl (usdc 200 ∷ usdc 250 ∷ [])

usdc_is_usdc :
    (n : ℕ)
    → get_converted_to_usdc chain
        (store 0)
        (record { coin = usdc n; wrapped_sources = record { sources = [] } })
        false
      ≡ ok (spent_usdc n)
unfolding get_converted_to_usdc get_usdc_sourced_coin
usdc_is_usdc n = refl

two_coins : Costs chain (store 0) (usdc 200 ∷ usdc 250 ∷ []) 450
two_coins = pay (usdc_is_usdc 200) (pay (usdc_is_usdc 250) free)

check_spend_vec-too_weak_example :
    IsOk (check_spend_vec chain (store 0) (usdc 200 ∷ usdc 250 ∷ []) false carol)
    × (¬ IsOk (process_spend_vec chain (store 0) (usdc 200 ∷ usdc 250 ∷ []) carol).0)
check_spend_vec-too_weak_example =
    check_spend_vec-too_weak chain (store 0) carol refl
      (
        (spent_usdc 200, usdc_is_usdc 200, omega arith),
        ((spent_usdc 250, usdc_is_usdc 250, omega arith), tt),
      )
      two_coins (omega arith)

-- carol after a reset at the second 6000: a day later is 92400.
abbrev carol_reset : HotWallet
carol_reset = record (carol_left 1000) { current_period_reset = 92400 }

reset_6000 : reset_period chain 6000000000000 carol ≡ (ok tt, carol_reset)
unfolding reset_period next_reset
reset_6000 = refl

reset_period-later_example : (6000 < 92400) × (should_reset chain 6000000000000 carol_reset ≡ false)
reset_period-later_example =
    reset_period-later chain 6000000000000 chain-ChronoLaws carol (omega arith) reset_6000

-- A monthly wallet with a period of 23 months, in January.
abbrev monthly : HotWallet
monthly = record carol { period_type = PeriodType.months; period_multiple = 23 }

reset_period-panics_example : (reset_period chain 6000000000000 monthly).0 ≡ panic
reset_period-panics_example =
    reset_period-panics chain 6000000000000 chain-ChronoLaws monthly 2 refl refl refl (omega arith)
      (omega arith)

assert_is_valid_iff_example : (assert_is_valid carol ≡ ok tt) ↔ IsValid carol
assert_is_valid_iff_example = assert_is_valid_iff carol

maybe_get_hot_wallet-add_example :
    maybe_get_hot_wallet (add_hot_wallet dave (with_debt 0)) "dave" ≡ ok dave
maybe_get_hot_wallet-add_example = maybe_get_hot_wallet-add (with_debt 0) dave "dave" refl

maybe_get_hot_wallet-rm_example :
    maybe_get_hot_wallet (rm_hot_wallet "carol" (with_debt 0)) "carol"
    ≡ err hot_wallet_does_not_exist
maybe_get_hot_wallet-rm_example = maybe_get_hot_wallet-rm (with_debt 0) "carol" "carol"

abbrev state_left : ℕ → State
state_left n = record (with_debt 0) { hot_wallets = carol_left n ∷ [] }

carol_found : maybe_get_hot_wallet (with_debt 0) "carol" ≡ ok carol
unfolding maybe_get_hot_wallet
carol_found = refl

carol_not_admin : is_admin (with_debt 0) "carol" ≡ false
unfolding is_admin
carol_not_admin = refl

spend_limits_100 :
    check_and_update_spend_limits chain
      (store 0)
      1000000000000
      "carol"
      (usdc 100 ∷ [])
      (with_debt 0)
    ≡ (ok (spent_usdc 100), state_left 200)
unfolding check_and_update_spend_limits maybe_get_hot_wallet_mut is_admin update_wallet should_reset
    process_spend_vec reduce_limit simulate_reduce_limit get_converted_to_usdc get_usdc_sourced_coin
    append_sources make_usdc_sourced_coin
spend_limits_100 = refl

check_and_update_spend_limits-charges_example :
    ((wal' : HotWallet) × (maybe_get_hot_wallet (state_left 200) "carol" ≡ ok wal')
      × Charged chain (store 0) 1000000000000 (usdc 100 ∷ []) carol_limit [] carol wal')
    × ((other : String)
        → other ≢ "carol"
        → maybe_get_hot_wallet (state_left 200) other ≡ maybe_get_hot_wallet (with_debt 0) other)
check_and_update_spend_limits-charges_example =
    check_and_update_spend_limits-charges chain (store 0) 1000000000000 "carol" (usdc 100 ∷ [])
      (with_debt 0) carol_not_admin carol_found refl spend_limits_100

reset_period-restores_example : Restored chain 6000000000000 carol carol_limit [] carol_reset
reset_period-restores_example = reset_period-restores chain 6000000000000 carol refl reset_6000

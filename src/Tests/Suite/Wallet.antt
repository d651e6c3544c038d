-- ===== src/Tests/Suite/Wallet.antt =====
-- src/tests_hot_wallet.rs: a wallet's validity, its limit and its period.
use juno_alpha_proxy_contrac.Common.{
  ℕ, ◌+◌, String, ◌≡◌, refl, true, Option, none, some, List, [], ◌∷◌, IsOk,
}
use juno_alpha_proxy_contrac.Types.{CoinLimit, HotWallet, days}
use juno_alpha_proxy_contrac.Constants.{mainnet_axlusdc_ibc}
use juno_alpha_proxy_contrac.HotWallet.{
  assert_is_valid, update_spend_limit, reset_limits, set_remaining, next_reset, reset_period,
}
use juno_alpha_proxy_contrac.Tests.Suite.LocalChain.{IsErr, local_chain, from_seconds}

abbrev million_of : String → ℕ → CoinLimit
million_of denom left = record { denom = denom; amount = 1_000_000; limit_remaining = left }

abbrev my_hot_wallet : Option String → List CoinLimit → HotWallet
my_hot_wallet usdc_denom spend_limits = record {
  address = "my_hot_wallet";
  current_period_reset = 1_510_010;
  period_type = days;
  period_multiple = 1;
  spend_limits = spend_limits;
  usdc_denom = usdc_denom;
  default = some true;
}

abbrev HotWalletCheckIsValid : Type 0
HotWalletCheckIsValid =
    let usd = million_of mainnet_axlusdc_ibc 1_000_000 in
    let two = million_of "non-usd-token" 1_000_000 ∷ usd ∷ [] in
    IsErr (assert_is_valid (my_hot_wallet none two))
    × IsErr (assert_is_valid (my_hot_wallet (some "false") two))
    × IsErr (assert_is_valid (my_hot_wallet (some "true") two))
    × IsOk (assert_is_valid (my_hot_wallet (some "true") (usd ∷ [])))
    × IsErr (assert_is_valid (my_hot_wallet (some "false") (usd ∷ [])))
    × IsErr (assert_is_valid (my_hot_wallet none (usd ∷ [])))

hot_wallet_check_is_valid : HotWalletCheckIsValid
unfolding assert_is_valid
hot_wallet_check_is_valid = (tt, tt, tt, tt, tt, tt)

-- The limit that the tests start with, and the one that they put in its place.
abbrev starting_spend_limit : CoinLimit
starting_spend_limit = million_of mainnet_axlusdc_ibc 1_000_000

abbrev adjusted_spend_limit : CoinLimit
adjusted_spend_limit = million_of mainnet_axlusdc_ibc 600_000

abbrev limited_wallet : HotWallet
limited_wallet = my_hot_wallet (some "true") (starting_spend_limit ∷ [])

abbrev HotWalletUpdateAndResetSpendLimit : Type 0
HotWalletUpdateAndResetSpendLimit =
    let (updated, hot_wallet) = update_spend_limit adjusted_spend_limit limited_wallet in
    (limited_wallet.spend_limits ≡ starting_spend_limit ∷ [])
    × IsOk updated
    × (hot_wallet.spend_limits ≡ adjusted_spend_limit ∷ [])
    × ((reset_limits hot_wallet).1.spend_limits ≡ starting_spend_limit ∷ [])

hot_wallet_update_and_reset_spend_limit : HotWalletUpdateAndResetSpendLimit
unfolding update_spend_limit reset_limits set_remaining
hot_wallet_update_and_reset_spend_limit = (refl, tt, refl, refl)

abbrev HotWalletUpdateResetTimePeriod : Type 0
HotWalletUpdateResetTimePeriod =
    let (updated, hot_wallet) = update_spend_limit adjusted_spend_limit limited_wallet in
    let (reset, restored) = reset_period local_chain (from_seconds 1_510_011) hot_wallet in
    IsOk updated
    × (hot_wallet.spend_limits ≡ adjusted_spend_limit ∷ [])
    × IsOk reset
    × (restored.spend_limits ≡ starting_spend_limit ∷ [])
    × (restored.current_period_reset ≡ 1_510_011 + 86_400)

hot_wallet_update_reset_time_period : HotWalletUpdateResetTimePeriod
unfolding update_spend_limit reset_period next_reset reset_limits set_remaining
hot_wallet_update_reset_time_period = (tt, refl, tt, refl, refl)

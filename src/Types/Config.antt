-- ===== src/Types/Config.antt =====
-- The contract's own state: sources, pair contracts, hot wallets and `State` (src/sources.rs,
-- src/sourced_coin.rs, src/pair_contract.rs, src/hot_wallet.rs, src/state.rs).
use juno_alpha_proxy_contrac.Common.{ℕ, String, Bool, Option, List}
use juno_alpha_proxy_contrac.Types.Cosmos.{Coin}

pub record Source : Type 0 where
  pub contract_addr : String
  pub query_msg : String

pub record Sources : Type 0 where
  pub sources : List Source

pub record SourcedCoin : Type 0 where
  pub coin : Coin
  pub wrapped_sources : Sources

pub data PairMessageType : Type 0 where
  loop_type juno_type : PairMessageType

pub record PairContract : Type 0 where
  pub contract_addr : String
  pub denom1 : String
  pub denom2 : String
  pub query_format : PairMessageType

pub data PeriodType : Type 0 where
  days months : PeriodType

-- Both amounts are `u64`.
pub record CoinLimit : Type 0 where
  pub denom : String
  pub amount : ℕ
  pub limit_remaining : ℕ

-- `current_period_reset` is in seconds and a `u64`, `period_multiple` a `u16`.
pub record HotWallet : Type 0 where
  pub address : String
  pub current_period_reset : ℕ
  pub period_type : PeriodType
  pub period_multiple : ℕ
  pub spend_limits : List CoinLimit
  pub usdc_denom : Option String
  pub default : Option Bool

pub record State : Type 0 where
  pub admin : String
  pub pending : String
  pub hot_wallets : List HotWallet
  pub uusd_fee_debt : ℕ
  pub fee_lend_repay_wallet : String
  pub home_network : String
  pub pair_contracts : List PairContract

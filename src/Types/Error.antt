-- ===== src/Types/Error.antt =====
-- The errors (src/error.rs); `StdError` is cosmwasm_std's, with the variants that this code builds
-- and one for the rest.
use juno_alpha_proxy_contrac.Common.{ℕ, String, List, Result, map_err}
use juno_alpha_proxy_contrac.Types.Config.{PairContract}

pub data StdError : Type 0 where
  generic_err : String → StdError
  not_found : String → StdError
  other_err : String → StdError

pub data ContractError : Type 0 where
  std : StdError → ContractError
  overflow : String → String → String → ContractError
  unauthorized : ContractError
  attached_funds_not_allowed : ContractError
  only_transfer_send_allowed : ContractError
  error_deserializing_cw20_message : ContractError
  wasm_msg_must_be_execute : ContractError
  spend_not_authorized : ContractError
  bad_message_type : String → ContractError
  hot_wallet_exists : ContractError
  hot_wallet_does_not_exist : ContractError
  day_update_error : String → ContractError
  month_update_error : ContractError
  cannot_spend_this_asset : String → ContractError
  cannot_spend_more_than_limit : String → String → ContractError
  uninitialized_message : ContractError
  caller_is_not_pending_new_admin : ContractError
  price_check_failed : String → String → String → ContractError
  repay_fees_first : ℕ → ContractError
  unknown_home_network : String → ContractError
  multi_spend_limits_not_supported : ContractError
  mismatched_pair_contract : ContractError
  pair_contract_not_found : String → String → List PairContract → ContractError
  sem_ver : String → ContractError
  bad_swap_denoms : String → ContractError
  cannot_spend_zero : ContractError
  unable_to_repay_debt : String → ContractError

abbrev pub StdResult {ℓ} : Type ℓ → Type ℓ
StdResult A = Result StdError A

-- `?` on a `StdResult` in a function that returns a `ContractError` (`#[from] StdError`).
abbrev pub from_std {ℓ} : {A : Type ℓ} → StdResult A → Result ContractError A
from_std = map_err std

-- ===== src/Types/Message.antt =====
-- The messages to the contract and the replies to its queries (src/msg.rs, src/hot_wallet.rs), and
-- the values that its handlers pass on (src/submsgs.rs, src/contract.rs).
use juno_alpha_proxy_contrac.Common.{ℕ, String, Bool, Option, List}
use juno_alpha_proxy_contrac.Types.Cosmos.{BankMsg, Binary, Coin, CosmosMsg, MessageInfo, Timestamp}
use juno_alpha_proxy_contrac.Types.Config.{HotWallet, Sources}

pub record InstantiateMsg : Type 0 where
  pub admin : String
  pub hot_wallets : List HotWallet
  pub uusd_fee_debt : ℕ
  pub fee_lend_repay_wallet : String
  pub home_network : String
  pub signers : List String

pub data ExecuteMsg : Type 0 where
  execute : List CosmosMsg → ExecuteMsg
  sim_execute : List CosmosMsg → ExecuteMsg
  propose_update_admin : String → ExecuteMsg
  confirm_update_admin : List String → ExecuteMsg
  cancel_update_admin : ExecuteMsg
  add_hot_wallet : HotWallet → ExecuteMsg
  rm_hot_wallet : String → ExecuteMsg

pub data QueryMsg : Type 0 where
  admin : QueryMsg
  pending : QueryMsg
  can_execute : String → CosmosMsg → QueryMsg
  hot_wallets : QueryMsg
  can_spend : String → List CosmosMsg → QueryMsg

pub record AdminResponse : Type 0 where
  pub admin : String

pub record CanSpendResponse : Type 0 where
  pub can_spend : Bool

pub record CanExecuteResponse : Type 0 where
  pub can_execute : Bool

pub record HotWalletsResponse : Type 0 where
  pub hot_wallets : List HotWallet

pub data WasmmsgType : Type 0 where
  cw20_transfer cw20_burn cw20_send cw20_increase_allowance cw20_decrease_allowance : WasmmsgType
  cw20_transfer_from cw20_send_from cw20_burn_from cw20_mint : WasmmsgType
  cw20_update_marketing cw20_upload_logo : WasmmsgType

pub data SubmsgType : Type 0 where
  bank_send bank_burn : SubmsgType
  execute_wasm : WasmmsgType → SubmsgType
  unknown : SubmsgType

pub record PendingSubmsg : Type 0 where
  pub msg : CosmosMsg
  pub contract_addr : Option String
  pub binarymsg : Option Binary
  pub funds : List Coin
  pub ty : SubmsgType

pub record CorePayload : Type 0 where
  pub info : MessageInfo
  pub this_msg : CosmosMsg
  pub current_time : Timestamp

pub record SourcedRepayMsg : Type 0 where
  pub repay_msg : Option BankMsg
  pub wrapped_sources : Sources

-- What `query` serialises, by the message that it answers.
pub data QueryReply : Type 0 where
  admin : AdminResponse → QueryReply
  can_execute : CanExecuteResponse → QueryReply
  hot_wallets : HotWalletsResponse → QueryReply
  can_spend : CanSpendResponse → QueryReply

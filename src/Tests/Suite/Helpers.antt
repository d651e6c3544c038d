-- ===== src/Tests/Suite/Helpers.antt =====
-- src/tests_helpers.rs: how the tests start the contract, add a wallet and spend.
use juno_alpha_proxy_contrac.Common.{
  ℕ, String, true, false, ◌≡◌, Option, none, some, List, [], ◌∷◌, Result, ok, err, panic, eqb,
  length, ◌+◌, if◌then◌else◌,
}
use juno_alpha_proxy_contrac.Types.{
  Attribute, BankMsg, Coin, CosmosMsg, Env, HotWallet, HotWalletsResponse, PeriodType, days,
  ExecuteMsg, new_response, MessageInfo, Response, State, StdError, StdResult, ContractError,
}
use juno_alpha_proxy_contrac.Constants.{mainnet_axlusdc_ibc}
use juno_alpha_proxy_contrac.Contract.{execute}
use juno_alpha_proxy_contrac.Contract.Start.{instantiate}
use juno_alpha_proxy_contrac.Contract.Spend.{execute_execute}
use juno_alpha_proxy_contrac.Contract.Queries.{query_hot_wallets}
use juno_alpha_proxy_contrac.Tests.Suite.LocalChain.{local_chain, from_seconds}

abbrev pub admin : String
admin = "alice"

abbrev pub hot_wallet : String
hot_wallet = "hotcarl"

-- The time of the chain, and a caller without funds.
abbrev pub current_env : Env
current_env = record { block = record { time = from_seconds 1_571_797_419 } }

abbrev pub info_of : String → MessageInfo
info_of sender = record { sender = sender; funds = [] }

abbrev pub test_wallet : String → Env → ℕ → PeriodType → ℕ → HotWallet
test_wallet address env period_multiple period_type limit = record {
  address = address;
  current_period_reset = local_chain.seconds env.block.time;
  period_type = period_type;
  period_multiple = period_multiple;
  spend_limits =
      record { denom = mainnet_axlusdc_ibc; amount = limit; limit_remaining = limit } ∷ [];
  usdc_denom = some "true";
  default = some true;
}

abbrev pub instantiate_contract : Env → Coin → Result StdError Response × Option State
instantiate_contract env starting_debt =
    instantiate local_chain current_env (info_of admin)
      (record {
        admin = admin;
        hot_wallets = test_wallet hot_wallet env 1 days 1_000_000 ∷ [];
        uusd_fee_debt = starting_debt.amount;
        fee_lend_repay_wallet = "test_repay_address";
        home_network = "local";
        signers = "testsigner1" ∷ "testsigner2" ∷ "testsigner3" ∷ [];
      })
      none

abbrev pub signer : String → Attribute
signer name = record { key = "signer"; value = name }

-- The response has one event, with these attributes.
abbrev pub HasEvent {ℓ} : {E : Type ℓ} → Result E Response → List Attribute → Type 0
HasEvent (ok res) attributes = res.events ≡ record { ty = "obisign"; attributes = attributes } ∷ []
HasEvent (err e) attributes = ⊥
HasEvent panic attributes = ⊥

abbrev pub runs : ExecuteMsg → String → Option State → Result ContractError Response × Option State
runs msg sender storage = execute local_chain current_env (info_of sender) msg storage

-- The wallet is added, and there is one more.
abbrev pub one_more :
    StdResult HotWalletsResponse
    → Result ContractError Response
    → StdResult HotWalletsResponse
    → Result ContractError Response
one_more (ok before) (ok _) (ok after) =
    if eqb (length after.hot_wallets) (length before.hot_wallets + 1)
    then ok new_response
    else panic
one_more _ _ _ = panic

abbrev pub add_test_hotwallet :
    String
    → Env
    → MessageInfo
    → ℕ
    → PeriodType
    → ℕ
    → Option State
    → Result ContractError Response × Option State
add_test_hotwallet address current_env info period_multiple period_type limit storage =
    let (r, storage') =
      execute local_chain current_env info
        (ExecuteMsg.add_hot_wallet
          (test_wallet address current_env period_multiple period_type limit))
        storage in
    (
      one_more (query_hot_wallets local_chain storage) r (query_hot_wallets local_chain storage'),
      storage',
    )

-- The assertion that the response sends coins and nothing else.
abbrev pub one_send : Result ContractError Response → Result ContractError Response
one_send (ok res) = elim res.messages [
  | CosmosMsg.bank (BankMsg.send _ _) ∷ [] ↦ ok res
  | _ ↦ panic
]
one_send (err e) = err e
one_send panic = panic

abbrev pub send : String → String → ℕ → CosmosMsg
send to_address denom amount =
    CosmosMsg.bank (BankMsg.send to_address (record { denom = denom; amount = amount } ∷ []))

abbrev pub test_spend_bank :
    Env
    → String
    → String
    → ℕ
    → MessageInfo
    → Option State
    → Result ContractError Response × Option State
test_spend_bank current_env to_address denom amount info storage =
    let (r, storage') =
      execute_execute local_chain current_env info (send to_address denom amount ∷ []) false
        storage in
    (one_send r, storage')

abbrev pub without_debt : Option State
without_debt = (instantiate_contract current_env (record { amount = 0; denom = "ujunox" })).1

-- The messages that a call has added to its response, and what it has logged.
abbrev pub HasMessages : Result ContractError Response → List CosmosMsg → Type 0
HasMessages (ok res) messages = res.messages ≡ messages
HasMessages (err e) messages = ⊥
HasMessages panic messages = ⊥

abbrev pub HasAction : Result ContractError Response → String → Type 0
HasAction (ok res) action = res.attributes ≡ record { key = "action"; value = action } ∷ []
HasAction (err e) action = ⊥
HasAction panic action = ⊥

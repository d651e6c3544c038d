-- ===== src/Types/Cosmos.antt =====
-- The types of cosmwasm_std and cw20 that the contract builds and takes apart. Cargo.toml asks for
-- the feature `staking` of cosmwasm_std, so these are all the variants of `CosmosMsg`. A payload
-- that the contract never reads and whose type is the package's own is left out (the expiry of an
-- allowance, the logo).
use juno_alpha_proxy_contrac.Common.{ℕ, String, Option, List, [], ◌∷◌, ◌++◌}

-- The bytes of a serialised value.
abbrev pub Binary : Type 0
Binary = List ℕ

-- Nanoseconds since 1970.
abbrev pub Timestamp : Type 0
Timestamp = ℕ

pub record Coin : Type 0 where
  pub denom : String
  pub amount : ℕ

pub data BankMsg : Type 0 where
  send : String → List Coin → BankMsg
  burn : List Coin → BankMsg

pub data StakingMsg : Type 0 where
  delegate : String → Coin → StakingMsg
  undelegate : String → Coin → StakingMsg
  redelegate : String → String → Coin → StakingMsg

pub data DistributionMsg : Type 0 where
  set_withdraw_address : String → DistributionMsg
  withdraw_delegator_reward : String → DistributionMsg

pub data WasmMsg : Type 0 where
  execute : String → Binary → List Coin → WasmMsg
  instantiate : Option String → ℕ → Binary → List Coin → String → WasmMsg
  migrate : String → ℕ → Binary → WasmMsg
  update_admin : String → String → WasmMsg
  clear_admin : String → WasmMsg

pub data CosmosMsg : Type 0 where
  bank : BankMsg → CosmosMsg
  custom : CosmosMsg
  staking : StakingMsg → CosmosMsg
  distribution : DistributionMsg → CosmosMsg
  wasm : WasmMsg → CosmosMsg

pub data Cw20ExecuteMsg : Type 0 where
  transfer : String → ℕ → Cw20ExecuteMsg
  burn : ℕ → Cw20ExecuteMsg
  send : String → ℕ → Binary → Cw20ExecuteMsg
  increase_allowance : String → ℕ → Cw20ExecuteMsg
  decrease_allowance : String → ℕ → Cw20ExecuteMsg
  transfer_from : String → String → ℕ → Cw20ExecuteMsg
  send_from : String → String → ℕ → Binary → Cw20ExecuteMsg
  burn_from : String → ℕ → Cw20ExecuteMsg
  mint : String → ℕ → Cw20ExecuteMsg
  update_marketing : Option String → Option String → Option String → Cw20ExecuteMsg
  upload_logo : Cw20ExecuteMsg

pub record Attribute : Type 0 where
  pub key : String
  pub value : String

pub record Event : Type 0 where
  pub ty : String
  pub attributes : List Attribute

-- The messages that the chain runs after the call, and what it logs.
pub record Response : Type 0 where
  pub messages : List CosmosMsg
  pub attributes : List Attribute
  pub events : List Event

pub record MessageInfo : Type 0 where
  pub sender : String
  pub funds : List Coin

pub record BlockInfo : Type 0 where
  pub time : Timestamp

pub record Env : Type 0 where
  pub block : BlockInfo

pub record ContractVersion : Type 0 where
  pub contract : String
  pub version : String

-- `Response::new()` and the methods that add to a response or an event.
abbrev pub new_response : Response
new_response = record { messages = []; attributes = []; events = [] }

abbrev pub add_message : CosmosMsg → Response → Response
add_message m r = record r { messages = r.messages ++ m ∷ [] }

abbrev pub add_messages : List CosmosMsg → Response → Response
add_messages ms r = record r { messages = r.messages ++ ms }

abbrev pub add_attribute : String → String → Response → Response
add_attribute k v r = record r { attributes = r.attributes ++ record { key = k; value = v } ∷ [] }

abbrev pub add_attributes : List Attribute → Response → Response
add_attributes more r = record r { attributes = r.attributes ++ more }

abbrev pub add_event : Event → Response → Response
add_event e r = record r { events = r.events ++ e ∷ [] }

-- ===== src/World.antt =====
-- What the contract calls and does not implement: the chain's storage and API (cosmwasm_std,
-- cw-storage-plus, cw2), the serialisation of messages, the exchanges that it queries, and the
-- crates semver and chrono. The model takes all of it as one parameter; `StoreLaws` and
-- `ChronoLaws` say what theorems rely on.
use juno_alpha_proxy_contrac.Common.{
  ℕ, String, ◌≡◌, ◌+◌, ◌*◌, ◌≤◌, ◌<◌, ◌⊎◌, Bool, false, Option, some, Result, ok, Returns,
}
use juno_alpha_proxy_contrac.Types.{
  Timestamp, Binary, Cw20ExecuteMsg, ContractVersion, State, DexQueryMsgFormatted,
  Token1ForToken2PriceResponse, Token2ForToken1PriceResponse, StdError, ContractError, StdResult,
  QueryReply,
}

pub record World : Type 1 where
  -- `deps.storage`, with `STATE: Item<State>` and the contract's version of cw2 in it
  pub Storage : Type 0
  pub load : Storage → StdResult State
  pub save : State → Storage → StdResult Storage
  pub get_contract_version : Storage → StdResult ContractVersion
  pub set_contract_version : String → String → Storage → StdResult Storage
  -- `deps.api.addr_validate`, and `Timestamp::seconds`
  pub addr_validate : String → StdResult String
  pub seconds : Timestamp → ℕ
  -- serialisation: of a query, of a reply, and back from a cw20 message
  pub to_binary : DexQueryMsgFormatted → StdResult Binary
  pub reply_to_binary : QueryReply → StdResult Binary
  pub from_binary : Binary → StdResult Cw20ExecuteMsg
  -- `format!("{:?}", …)` of a binary, and `to_string` of an error
  pub debug_binary : Binary → String
  pub std_error_to_string : StdError → String
  pub contract_error_to_string : ContractError → String
  -- `deps.querier.query` of a smart query to a contract, decoded as one of two types: what the
  -- exchanges answer during one call. Contract/Run.antt changes it from call to call.
  pub query_token1_for_token2 : String → Binary → StdResult Token1ForToken2PriceResponse
  pub query_token2_for_token1 : String → Binary → StdResult Token2ForToken1PriceResponse
  -- semver: a failed `parse` with its error's text, and `<`
  pub Version : Type 0
  pub parse_version : String → Result String Version
  pub version_lt : Version → Version → Bool
  -- chrono: `none` is a date out of range, on which `from_timestamp` and `from_ymd` panic
  pub NaiveDate : Type 0
  pub NaiveDateTime : Type 0
  pub from_timestamp : ℕ → Option NaiveDateTime
  pub checked_add_days : NaiveDateTime → ℕ → Option NaiveDateTime
  pub year : NaiveDateTime → ℕ
  pub month : NaiveDateTime → ℕ
  pub from_ymd : ℕ → ℕ → ℕ → Option NaiveDate
  pub midnight : NaiveDate → NaiveDateTime
  pub timestamp : NaiveDateTime → ℕ

-- A saved state is what the next load returns; the version is another item of the storage.
pub record StoreLaws (w : World) : Type 0 where
  pub load-save :
      (s : State) (σ : w.Storage) {σ' : w.Storage} → w.save s σ ≡ ok σ' → w.load σ' ≡ ok s
  pub load-set_contract_version :
      (c v : String) (σ : w.Storage) {σ' : w.Storage}
      → w.set_contract_version c v σ ≡ ok σ'
      → w.load σ' ≡ w.load σ

-- The version that was set is the one recorded, and no version is older than itself.
pub record VersionLaws (w : World) : Type 0 where
  pub get-set_contract_version :
      (c v : String) (σ : w.Storage) {σ' : w.Storage}
      → w.set_contract_version c v σ ≡ ok σ'
      → w.get_contract_version σ' ≡ ok (record { contract = c; version = v })
  pub version_lt-self : (v : w.Version) → w.version_lt v v ≡ false

-- What the contract calls ends with a result or an error: no call aborts. The calendar has a first day
-- of every month of the years from 1970 to 9999.
pub record ChainReturns (w : World) : Type 0 where
  pub load : (σ : w.Storage) → Returns (w.load σ)
  pub save : (s : State) (σ : w.Storage) → Returns (w.save s σ)
  pub addr_validate : (a : String) → Returns (w.addr_validate a)
  pub to_binary : (m : DexQueryMsgFormatted) → Returns (w.to_binary m)
  pub from_binary : (b : Binary) → Returns (w.from_binary b)
  pub query_token1_for_token2 : (a : String) (b : Binary) → Returns (w.query_token1_for_token2 a b)
  pub query_token2_for_token1 : (a : String) (b : Binary) → Returns (w.query_token2_for_token1 a b)
  pub from_ymd :
      (y m : ℕ)
      → 1970 ≤ y
      → y ≤ 9999
      → 1 ≤ m
      → m ≤ 12
      → (d : w.NaiveDate) × (w.from_ymd y m 1 ≡ some d)

-- The calendar: months run from 1 to 12, `from_ymd` knows no others, adding days adds seconds, and
-- the first day of a later month begins after every moment of this one.
pub record ChronoLaws (w : World) : Type 0 where
  pub month_bounds : (d : w.NaiveDateTime) → (1 ≤ w.month d) × (w.month d ≤ 12)
  pub from_ymd_month :
      (y m day : ℕ) {d : w.NaiveDate} → w.from_ymd y m day ≡ some d → (1 ≤ m) × (m ≤ 12)
  pub timestamp-from_timestamp :
      (t : ℕ) {d : w.NaiveDateTime} → w.from_timestamp t ≡ some d → w.timestamp d ≡ t
  pub timestamp-checked_add_days :
      (d : w.NaiveDateTime) (n : ℕ) {d' : w.NaiveDateTime}
      → w.checked_add_days d n ≡ some d'
      → w.timestamp d' ≡ w.timestamp d + 86_400 * n
  pub later_month :
      (d : w.NaiveDateTime) (y m : ℕ) {d' : w.NaiveDate}
      → w.from_ymd y m 1 ≡ some d'
      → (w.year d < y) ⊎ ((y ≡ w.year d) × (w.month d < m))
      → w.timestamp d < w.timestamp (w.midnight d')

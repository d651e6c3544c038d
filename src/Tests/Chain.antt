-- ===== src/Tests/Chain.antt =====
-- A chain whose storage is the stored state, whose exchanges quote a fixed price, and whose calendar
-- has twelve months of thirty days.
use juno_alpha_proxy_contrac.Common.{
  ℕ, String, ◌≡◌, ◌+◌, ◌-◌, ◌*◌, ◌/◌, ◌%◌, ◌<◌, ◌≤◌, ◌⊎◌, true, ◌&&◌, Option, none, some, [], ◌∷◌,
  ok, err, leb, ltb, if◌then◌else◌, arith,
}
use juno_alpha_proxy_contrac.Types.{
  State, juno_type, StdResult, not_found, generic_err, Binary, Cw20ExecuteMsg, Coin, CoinLimit,
  HotWallet, PeriodType, Env, MessageInfo, PairContract,
}
use juno_alpha_proxy_contrac.World.{World, StoreLaws, ChronoLaws}
use juno_alpha_proxy_contrac.Constants.{contract_name, mainnet_axlusdc_ibc}

abbrev pub load_state : Option State → StdResult State
load_state none = err (not_found "State")
load_state (some s) = ok s

abbrev pub month_seconds : ℕ
month_seconds = 2592000

-- The months since 1970.
abbrev months_of : ℕ → ℕ
months_of t = t / 2592000

abbrev pub ymd : ℕ → ℕ → ℕ → Option ℕ
ymd y m day =
    if leb 1 m && leb m 12 && leb 1970 y
    then some (((y - 1970) * 12 + (m - 1)) * 2592000 + (day - 1) * 86400)
    else none

abbrev pub decode_cw20 : Binary → StdResult Cw20ExecuteMsg
decode_cw20 [] = err (generic_err "no message")
decode_cw20 (n ∷ _) = ok (Cw20ExecuteMsg.transfer "bob" n)

abbrev pub chain : World
chain = record {
  Storage = Option State;
  load = load_state;
  save = λ s _. ok (some s);
  get_contract_version = λ _. ok (record { contract = contract_name; version = "0.6.1" });
  set_contract_version = λ _ _ storage. ok storage;
  addr_validate = ok;
  seconds = λ t. t / 1000000000;
  to_binary = λ _. ok [];
  reply_to_binary = λ _. ok [];
  from_binary = decode_cw20;
  debug_binary = λ _. "[]";
  std_error_to_string = λ _. "error";
  contract_error_to_string = λ _. "error";
  query_token1_for_token2 = λ _ _. ok (record { token2_amount = 100 });
  query_token2_for_token1 = λ _ _. ok (record { token1_amount = 200 });
  Version = ℕ;
  parse_version = λ _. ok 1;
  version_lt = ltb;
  NaiveDate = ℕ;
  NaiveDateTime = ℕ;
  from_timestamp = some;
  checked_add_days = λ d n. some (d + 86400 * n);
  year = λ d. 1970 + d / 2592000 / 12;
  month = λ d. (d / 2592000) % 12 + 1;
  from_ymd = ymd;
  midnight = λ d. d;
  timestamp = λ d. d;
}

pub chain-StoreLaws : StoreLaws chain
chain-StoreLaws = record {
  load-save = λ s σ e. ground arith;
  load-set_contract_version = λ c v σ e. ground arith;
}

ymd-eq-some :
    (y m day : ℕ) {d : ℕ}
    → ymd y m day ≡ some d
    → (1 ≤ m)
      × (m ≤ 12)
      × (1970 ≤ y)
      × (d ≡ ((y - 1970) * 12 + (m - 1)) * 2592000 + (day - 1) * 86400)
ymd-eq-some y m day e = ground arith

after_month : (d k : ℕ) → d / 2592000 < k → d < k * 2592000
after_month d k h = omega arith

chain-later_month :
    (d y m : ℕ) {d' : ℕ}
    → ymd y m 1 ≡ some d'
    → (1970 + d / 2592000 / 12 < y) ⊎ ((y ≡ 1970 + d / 2592000 / 12) × ((d / 2592000) % 12 + 1 < m))
    → d < d'
chain-later_month d y m e later =
    let (lo, hi, base, same) = ymd-eq-some y m 1 e in
    omega (arith, after_month d ((y - 1970) * 12 + (m - 1)) (omega arith))

pub chain-ChronoLaws : ChronoLaws chain
chain-ChronoLaws = record {
  month_bounds = λ d. (omega arith, omega arith);
  from_ymd_month = λ y m day e. let (lo, hi, _, _) = ymd-eq-some y m day e in (lo, hi);
  timestamp-from_timestamp = λ t e. ground arith;
  timestamp-checked_add_days = λ d n e. ground arith;
  later_month = λ d y m e later. chain-later_month d y m e later;
}

-- A hot wallet with a daily limit of 1000, of which 300 remain, until the second 5000.
abbrev pub carol : HotWallet
carol = record {
  address = "carol";
  current_period_reset = 5000;
  period_type = PeriodType.days;
  period_multiple = 1;
  spend_limits = record { denom = mainnet_axlusdc_ibc; amount = 1000; limit_remaining = 300 } ∷ [];
  usdc_denom = some "true";
  default = some true;
}

abbrev pub dave : HotWallet
dave = record carol { address = "dave" }

abbrev pub token_pair : PairContract
token_pair = record {
  contract_addr = "pair";
  denom1 = "testtokens";
  denom2 = mainnet_axlusdc_ibc;
  query_format = juno_type;
}

abbrev pub with_debt : ℕ → State
with_debt debt = record {
  admin = "alice";
  pending = "alice";
  hot_wallets = carol ∷ [];
  uusd_fee_debt = debt;
  fee_lend_repay_wallet = "lender";
  home_network = "local";
  pair_contracts = token_pair ∷ [];
}

abbrev pub usdc : ℕ → Coin
usdc n = record { denom = mainnet_axlusdc_ibc; amount = n }

-- The second 1000, before the end of carol's period, and one after it.
abbrev pub at_second : ℕ → Env
at_second n = record { block = record { time = n * 1000000000 } }

abbrev pub from : String → MessageInfo
from sender = record { sender = sender; funds = [] }

abbrev pub store : ℕ → Option State
store debt = some (with_debt debt)

abbrev pub carol_left : ℕ → HotWallet
carol_left n = record carol {
  spend_limits = record { denom = mainnet_axlusdc_ibc; amount = 1000; limit_remaining = n } ∷ [];
}

abbrev pub carol_limit : CoinLimit
carol_limit = record { denom = mainnet_axlusdc_ibc; amount = 1000; limit_remaining = 300 }

abbrev pub store_left : ℕ → Option State
store_left n = some (record (with_debt 0) { hot_wallets = carol_left n ∷ [] })

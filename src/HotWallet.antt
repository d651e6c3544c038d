-- ===== src/HotWallet.antt =====
-- src/hot_wallet.rs: a wallet with a recurring spend limit in USDC. A method on `&mut self` is an
-- action on the wallet: what it wrote before an error stays written.
pub mod Spending
pub mod Checking
pub mod Reset
pub mod NoLimit
pub mod Terms
pub mod Costs
pub mod Validity
pub mod Ceiling
pub mod Total
use juno_alpha_proxy_contrac.Common.{
  ℕ, ◌+◌, ◌-◌, ◌/◌, ◌%◌, ◌^◌, String, Bool, false, ◌&&◌, ◌||◌, not, Option, none, some, List, [],
  ◌∷◌, Result, ok, err, panic, first, or_panic, length, ltb, leb, if◌then◌else◌, ◌==◌, to_string,
}
use juno_alpha_proxy_contrac.Common.Outcome
use juno_alpha_proxy_contrac.Common.Exec.{Exec, lift, reads, pure, modify, ◌>>=◌, ◌>>◌}
use juno_alpha_proxy_contrac.Types.{
  Coin, Timestamp, PeriodType, days, months, CoinLimit, HotWallet, Sources, SourcedCoin, StdError,
  StdResult, generic_err, ContractError, day_update_error, month_update_error,
  cannot_spend_more_than_limit,
}
use juno_alpha_proxy_contrac.World.{World}
use juno_alpha_proxy_contrac.Constants.{mainnet_axlusdc_ibc}
use juno_alpha_proxy_contrac.Simulation.{u128_mod}
use juno_alpha_proxy_contrac.Sources.{append_sources}
use juno_alpha_proxy_contrac.SourcedCoin.{get_converted_to_usdc}

abbrev pub u64_mod : ℕ
u64_mod = 2 ^ 64

abbrev pub u16_mod : ℕ
u16_mod = 2 ^ 16

-- `u64::checked_sub`
abbrev pub checked_sub : ℕ → ℕ → Option ℕ
checked_sub a b = if leb b a then some (a - b) else none

-- `Uint128::saturating_add`
abbrev pub saturating_add : ℕ → ℕ → ℕ
saturating_add a b = if ltb (a + b) u128_mod then a + b else u128_mod - 1

-- `v[0].limit_remaining = n`
abbrev pub set_first_remaining : ℕ → List CoinLimit → Result ContractError (List CoinLimit)
set_first_remaining n [] = panic
set_first_remaining n (l ∷ rest) = ok (record l { limit_remaining = n } ∷ rest)

abbrev is_true_text : Option String → Bool
is_true_text none = false
is_true_text (some s) = s == "true"

unfoldable pub assert_is_valid : HotWallet → StdResult (Unit {0})
assert_is_valid self =
    let refused : StdResult (Unit {0}) = err (
      generic_err
        "Multiple spend limits are no longer supported. Remove this wallet and re-add with a USD spend limit.") in
    if not (is_true_text self.usdc_denom) || ltb 1 (length self.spend_limits)
    then refused
    else Outcome.◌>>=◌ (first self.spend_limits) λ limit.
      if not (limit.denom == mainnet_axlusdc_ibc) && not (limit.denom == "testtokens")
      then refused
      else ok tt

unfoldable pub update_spend_limit : CoinLimit → Exec HotWallet StdError (Unit {0})
update_spend_limit new_limit = modify λ self. record self { spend_limits = new_limit ∷ [] }

unfoldable pub make_usdc_sourced_coin : ℕ → Sources → SourcedCoin
make_usdc_sourced_coin amount wrapped_sources = record {
  coin = record { amount = amount; denom = mainnet_axlusdc_ibc };
  wrapped_sources = wrapped_sources;
}

-- `self.spend_limits[0].limit_remaining = n`
unfoldable pub set_remaining : ℕ → Exec HotWallet ContractError (Unit {0})
set_remaining n self = elim (set_first_remaining n self.spend_limits) [
  | ok limits ↦ (ok tt, record self { spend_limits = limits })
  | err e ↦ (err e, self)
  | panic ↦ (panic, self)
]

unfoldable pub reset_limits : Exec HotWallet ContractError (Unit {0})
unfolding set_remaining
reset_limits = do
  limit ← reads (λ (self : HotWallet). first self.spend_limits)
  set_remaining limit.amount

abbrev pub no_sources : Sources
no_sources = record { sources = [] }

module _ (w : World) where
  unfoldable pub should_reset : Timestamp → HotWallet → Bool
  should_reset current_time self = ltb self.current_period_reset (w.seconds current_time)

  -- The converted amount, a `u128`, is cut to a `u64` before it is compared.
  unfoldable pub simulate_reduce_limit :
      w.Storage → Coin → Bool → HotWallet → Result ContractError (ℕ × SourcedCoin)
  simulate_reduce_limit storage spend reset self =
      Outcome.◌>>=◌
        (get_converted_to_usdc w storage (record { coin = spend; wrapped_sources = no_sources })
          false)
        λ converted. Outcome.◌>>=◌ (first self.spend_limits) λ limit.
          let limit_to_check = if reset then limit.amount else limit.limit_remaining in
          elim (checked_sub limit_to_check (converted.coin.amount % u64_mod)) [
            | some limit_remaining ↦ ok (limit_remaining, converted)
            | none ↦ err (
                cannot_spend_more_than_limit (to_string converted.coin.amount) converted.coin.denom)
          ]

  unfoldable pub reduce_limit : w.Storage → Coin → Exec HotWallet ContractError SourcedCoin
  unfolding set_remaining
  reduce_limit storage spend = do
    reduction ← reads (simulate_reduce_limit storage spend false)
    set_remaining reduction.0
    pure reduction.1

  -- the loop of `check_spend_vec`
  check_spend_from :
      w.Storage → Bool → HotWallet → List Coin → ℕ → Sources → Result ContractError SourcedCoin
  check_spend_from storage reset self [] tally sources = ok (make_usdc_sourced_coin tally sources)
  check_spend_from storage reset self (n ∷ rest) tally sources =
      Outcome.◌>>=◌ (simulate_reduce_limit storage n reset self) λ checked.
        check_spend_from storage reset self rest (saturating_add tally checked.1.coin.amount)
          (append_sources sources checked.1)

  unfoldable pub check_spend_vec :
      w.Storage → List Coin → Bool → HotWallet → Result ContractError SourcedCoin
  unfolding check_spend_from
  check_spend_vec storage spend_vec reset self =
      check_spend_from storage reset self spend_vec 0 no_sources

  -- the loop of `process_spend_vec`
  process_spend_from :
      w.Storage → List Coin → ℕ → Sources → Exec HotWallet ContractError SourcedCoin
  process_spend_from storage [] tally sources = pure (make_usdc_sourced_coin tally sources)
  process_spend_from storage (n ∷ rest) tally sources = do
    checked ← reduce_limit storage n
    process_spend_from storage rest (saturating_add tally checked.coin.amount)
        (append_sources sources checked)

  unfoldable pub process_spend_vec :
      w.Storage → List Coin → Exec HotWallet ContractError SourcedCoin
  unfolding process_spend_from
  process_spend_vec storage spend_vec = process_spend_from storage spend_vec 0 no_sources

  abbrev pub first_of_month : ℕ → ℕ → Result ContractError (Result ContractError w.NaiveDateTime)
  first_of_month y m = Outcome.◌>>=◌ (or_panic (w.from_ymd y m 1)) λ date. ok (ok (w.midnight date))

  -- The `match` on the period's type in `reset_period`. The inner result is the value `new_dt`; the
  -- outer one is an early return or a panic. The sum of the months is a `u16`.
  unfoldable pub next_reset :
      PeriodType → ℕ → w.NaiveDateTime → Result ContractError (Result ContractError w.NaiveDateTime)
  next_reset days multiple now = elim (w.checked_add_days now multiple) [
    | some dt ↦ ok (ok dt)
    | none ↦ err (day_update_error "unknown error")
  ]
  next_reset months multiple now =
      let working_month = w.month now + multiple in
      if leb u16_mod working_month
      then panic
      else if leb 2 working_month && leb working_month 12
      then first_of_month (w.year now) working_month
      else if leb 13 working_month && leb working_month 268
      then first_of_month (w.year now + working_month / 12) (working_month % 12)
      else ok (err month_update_error)

  -- `match new_dt { … Err(e) => return Err(DayUpdateError(e.to_string())) }`
  abbrev pub reset_date :
      Result ContractError w.NaiveDateTime → Result ContractError w.NaiveDateTime
  reset_date (ok dt) = ok dt
  reset_date (err e) = err (day_update_error (w.contract_error_to_string e))
  reset_date panic = panic

  unfoldable pub reset_period : Timestamp → Exec HotWallet ContractError (Unit {0})
  unfolding reset_limits
  reset_period current_time = do
    now ← lift (or_panic (w.from_timestamp (w.seconds current_time)))
    new_dt ← reads (λ (self : HotWallet). next_reset self.period_type self.period_multiple now)
    reset_limits
    dt ← lift (reset_date new_dt)
    modify (λ self. record self { current_period_reset = w.timestamp dt })

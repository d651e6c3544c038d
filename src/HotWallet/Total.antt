-- ===== src/HotWallet/Total.antt =====
-- The methods of src/hot_wallet.rs end with a result or an error on a wallet with one limit.
use juno_alpha_proxy_contrac.Common.{
  ℕ, ◌+◌, ◌%◌, ◌/◌, ◌≤◌, ◌<◌, ◌⊎◌, ◌≢◌, ◌≡◌, ap, sym, subst, inl, inr, false, some, List, [], ◌∷◌,
  Result, ok, err, panic, arith, Returns,
}
use juno_alpha_proxy_contrac.Common.Exec
use juno_alpha_proxy_contrac.Common.Outcome
use juno_alpha_proxy_contrac.Types.{
  Coin, Timestamp, HotWallet, Sources, SourcedCoin, ContractError, PeriodType, days, months,
}
use juno_alpha_proxy_contrac.World.{World, ChainReturns}
use juno_alpha_proxy_contrac.SourcedCoin.Total.{get_converted_to_usdc-Returns}
use juno_alpha_proxy_contrac.HotWallet.{
  u16_mod, first_of_month, set_remaining, reset_limits, simulate_reduce_limit, reduce_limit,
  process_spend_from, process_spend_vec, next_reset, reset_period,
}
use juno_alpha_proxy_contrac.HotWallet.Terms.{terms, terms-process_spend_vec, terms-reset_period}
use juno_alpha_proxy_contrac.HotWallet.Ceiling.{
  IsSound, reduce_limit-IsSound, process_spend_vec-IsSound, reset_period-IsSound,
}

-- Where a period of some months from a month and a year has an end: the months are counted in a `u16`;
-- a sum from 13 to 268 is divided by twelve, and the rest must not be 0, since no month has that number;
-- every other sum is a month of this year or an error.
abbrev pub HasEnd : PeriodType → ℕ → ℕ → Type 0
HasEnd days multiple month = Unit
HasEnd months multiple month =
    (month + multiple < u16_mod)
    × (((month + multiple) % 12 ≢ 0) ⊎ (month + multiple ≤ 12) ⊎ (269 ≤ month + multiple))

-- A sound wallet and a time from 1970 to 9977, from which the wallet's period has an end.
pub record IsSteady (w : World) (current_time : Timestamp) (self : HotWallet) : Type 0 where
  pub sound : IsSound self
  pub now : w.NaiveDateTime
  pub started : w.from_timestamp (w.seconds current_time) ≡ some now
  pub since : 1970 ≤ w.year now
  pub until : w.year now ≤ 9977
  pub has_end : HasEnd self.period_type self.period_multiple (w.month now)

IsSteady-terms :
    (w : World) (current_time : Timestamp) (self self' : HotWallet)
    → terms self' ≡ terms self
    → IsSteady w current_time self
    → IsSound self'
    → IsSteady w current_time self'
IsSteady-terms w current_time self self' same h sound = record {
  sound = sound;
  now = h.now;
  started = h.started;
  since = h.since;
  until = h.until;
  has_end =
      subst (λ (x : HotWallet). HasEnd x.period_type x.period_multiple (w.month h.now)) (sym same)
        h.has_end;
}

module _ (w : World) (chain_returns : ChainReturns w) (storage : w.Storage) where
  simulate_reduce_limit-Returns :
      (c : Coin) (self : HotWallet)
      → IsSound self
      → Returns (simulate_reduce_limit w storage c false self)
  unfolding simulate_reduce_limit
  simulate_reduce_limit-Returns c self h =
      Outcome.Returns-bind _ _ (get_converted_to_usdc-Returns w chain_returns storage _ false)
        (λ usdc e. rw h.only_limit (ground arith))

  reduce_limit-Returns :
      (c : Coin) (self : HotWallet) → IsSound self → Returns (reduce_limit w storage c self).0
  unfolding reduce_limit set_remaining
  reduce_limit-Returns c self h =
      Exec.Returns-bind (Exec.reads (simulate_reduce_limit w storage c false)) _ self
        (simulate_reduce_limit-Returns c self h)
        (λ reduction s1 e.
          subst
            (λ x.
              Returns
                (Exec.◌>>◌ (set_remaining reduction.0) (Exec.pure {E = ContractError} reduction.1)
                  x).0)
            (ap (λ (p : Result ContractError (ℕ × SourcedCoin) × HotWallet). p.1) e)
            (rw h.only_limit tt))

  process_spend_from-Returns :
      (coins : List Coin) (tally : ℕ) (sources : Sources) (self : HotWallet)
      → IsSound self
      → Returns (process_spend_from w storage coins tally sources self).0
  unfolding process_spend_from
  process_spend_from-Returns [] tally sources self h = tt
  process_spend_from-Returns (c ∷ coins) tally sources self h =
      Exec.Returns-bind (reduce_limit w storage c) _ self (reduce_limit-Returns c self h)
        (λ checked self1 e. process_spend_from-Returns coins _ _ self1 (
          subst IsSound (ap (λ (p : Result ContractError SourcedCoin × HotWallet). p.1) e)
            (reduce_limit-IsSound w storage c self h)))

  pub process_spend_vec-Returns :
      (coins : List Coin) (self : HotWallet)
      → IsSound self
      → Returns (process_spend_vec w storage coins self).0
  unfolding process_spend_vec
  process_spend_vec-Returns coins self h = process_spend_from-Returns coins 0 _ self h

-- A month that the calendar has.
first_of_month-Returns :
    (w : World)
    → ChainReturns w
    → (y m : ℕ) → 1970 ≤ y
    → y ≤ 9999
    → 1 ≤ m
    → m ≤ 12
    → Returns (first_of_month w y m)
first_of_month-Returns w chain_returns y m since until lo hi =
    let (d, found) = chain_returns.from_ymd y m since until lo hi in rw found tt

-- From a month with an end, the next reset is computed or refused.
end-Returns :
    (w : World)
    → ChainReturns w
    → (ty : PeriodType) (n : ℕ) (now : w.NaiveDateTime) → 1970 ≤ w.year now
    → w.year now ≤ 9977
    → HasEnd ty n (w.month now)
    → Returns (next_reset w ty n now)
unfolding next_reset
end-Returns w chain_returns days n now since until has_end = ground arith
end-Returns w chain_returns months n now since until has_end =
    let total = w.month now + n in
    ground (
      arith,
      first_of_month-Returns w chain_returns (w.year now) total,
      first_of_month-Returns w chain_returns (w.year now + total / 12) (total % 12),
    )

-- The value of `new_dt` is a date or an error.
next_reset-Returns :
    (w : World) (ty : PeriodType) (n : ℕ) (now : w.NaiveDateTime)
    {new_dt : Result ContractError w.NaiveDateTime}
    → next_reset w ty n now ≡ ok new_dt
    → Returns new_dt
unfolding next_reset
next_reset-Returns w days n now e = ground arith
next_reset-Returns w months n now e = ground arith

module _ (w : World) (current_time : Timestamp) where
  pub reset_period-Returns :
      ChainReturns w
      → (self : HotWallet) → IsSteady w current_time self
      → Returns (reset_period w current_time self).0
  unfolding reset_period reset_limits set_remaining
  reset_period-Returns chain_returns self h =
      elim (Outcome.Result-cases (next_reset w self.period_type self.period_multiple h.now)) [
        | inl (ok dt, e) ↦ ground (arith, h.started, h.sound.only_limit)
        | inl (err x, e) ↦ ground (arith, h.started, h.sound.only_limit)
        | inl (panic, e) ↦
            absurd (next_reset-Returns w self.period_type self.period_multiple h.now e)
        | inr (inl (x, failed)) ↦ ground (arith, h.started)
        | inr (inr aborted) ↦ absurd (
            subst Returns aborted (
              end-Returns w chain_returns self.period_type self.period_multiple h.now h.since
                h.until h.has_end))
      ]

  pub process_spend_vec-IsSteady :
      (storage : w.Storage) (spend : List Coin)
      → Exec.Maintains (IsSteady w current_time) (process_spend_vec w storage spend)
  process_spend_vec-IsSteady storage spend self h =
      IsSteady-terms w current_time self _ (terms-process_spend_vec w storage spend self) h
        (process_spend_vec-IsSound w storage spend self h.sound)

  pub reset_period-IsSteady : Exec.Maintains (IsSteady w current_time) (reset_period w current_time)
  reset_period-IsSteady self h =
      IsSteady-terms w current_time self _ (terms-reset_period w current_time self) h
        (reset_period-IsSound w current_time self h.sound)

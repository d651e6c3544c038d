-- ===== src/HotWallet/Terms.antt =====
-- What no spend and no reset changes of a wallet.
use juno_alpha_proxy_contrac.Common.{ℕ, ◌≡◌, refl, List, [], ◌∷◌, map, arith}
use juno_alpha_proxy_contrac.Common.Exec
use juno_alpha_proxy_contrac.Types.{Coin, Timestamp, CoinLimit, HotWallet, Sources}
use juno_alpha_proxy_contrac.World.{World}
use juno_alpha_proxy_contrac.HotWallet.{
  set_remaining, reset_limits, reduce_limit, process_spend_from, process_spend_vec, reset_period,
}

abbrev pub limit_terms : CoinLimit → CoinLimit
limit_terms l = record l { limit_remaining = 0 }

-- The wallet but for the end of its period and what remains of its limits.
abbrev pub terms : HotWallet → HotWallet
terms self = record self {
  current_period_reset = 0;
  spend_limits = map limit_terms self.spend_limits;
}

pub terms-set_remaining : (n : ℕ) (self : HotWallet) → terms (set_remaining n self).1 ≡ terms self
unfolding set_remaining
terms-set_remaining n self = ground arith

terms-reset_limits : (self : HotWallet) → terms (reset_limits self).1 ≡ terms self
unfolding reset_limits
terms-reset_limits self = ground arith

module _ (w : World) where
  terms-reduce_limit :
      (storage : w.Storage) (c : Coin) (self : HotWallet)
      → terms (reduce_limit w storage c self).1 ≡ terms self
  unfolding reduce_limit
  terms-reduce_limit storage c self = ground arith

  terms-process_spend_from :
      (storage : w.Storage) (coins : List Coin) (tally : ℕ) (sources : Sources) (self : HotWallet)
      → terms (process_spend_from w storage coins tally sources self).1 ≡ terms self
  unfolding process_spend_from
  terms-process_spend_from storage [] tally sources self = refl
  terms-process_spend_from storage (c ∷ coins) tally sources self =
      Exec.Keeps-bind terms (reduce_limit w storage c) _ (terms-reduce_limit storage c)
        (λ checked. terms-process_spend_from storage coins _ _) self

  -- Whether it returns or fails, a spend leaves the terms of the wallet alone.
  pub terms-process_spend_vec :
      (storage : w.Storage) (coins : List Coin) (self : HotWallet)
      → terms (process_spend_vec w storage coins self).1 ≡ terms self
  unfolding process_spend_vec
  terms-process_spend_vec storage coins self = terms-process_spend_from storage coins 0 _ self

  -- Whether it returns or fails, a reset leaves the terms of the wallet alone.
  pub terms-reset_period :
      (current_time : Timestamp) (self : HotWallet)
      → terms (reset_period w current_time self).1 ≡ terms self
  unfolding reset_period
  terms-reset_period current_time self = ground arith

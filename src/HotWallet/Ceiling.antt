-- ===== src/HotWallet/Ceiling.antt =====
-- The limit of a wallet of src/hot_wallet.rs: what remains of it stays within its amount.
use juno_alpha_proxy_contrac.Common.{
  ℕ, false, ◌≤◌, ◌≡◌, refl, ◌∙◌, ◌⊎◌, subst, List, [], ◌∷◌, ok, arith, inl, inr,
}
use juno_alpha_proxy_contrac.Common.Exec
use juno_alpha_proxy_contrac.Common.Outcome.{Result-cases}
use juno_alpha_proxy_contrac.Types.{Coin, Timestamp, CoinLimit, HotWallet, Sources, SourcedCoin}
use juno_alpha_proxy_contrac.World.{World}
use juno_alpha_proxy_contrac.HotWallet.{
  set_remaining, reset_limits, simulate_reduce_limit, reduce_limit, process_spend_from,
  process_spend_vec, reset_period,
}

-- A wallet with one limit, of which at most its amount remains.
pub record IsSound (self : HotWallet) : Type 0 where
  pub limit : CoinLimit
  pub only_limit : self.spend_limits ≡ limit ∷ []
  pub fits : limit.limit_remaining ≤ limit.amount

abbrev with_limit : HotWallet → CoinLimit → ℕ → HotWallet
with_limit self l n = record self { spend_limits = record l { limit_remaining = n } ∷ [] }

with_limit-IsSound :
    (self : HotWallet) (l : CoinLimit) (n : ℕ) → n ≤ l.amount → IsSound (with_limit self l n)
with_limit-IsSound self l n le = record {
  limit = record l { limit_remaining = n };
  only_limit = refl;
  fits = le;
}

reset_limits-IsSound : Exec.Maintains IsSound reset_limits
unfolding reset_limits set_remaining
reset_limits-IsSound self h =
    subst IsSound (ground (arith, h.only_limit))
      (with_limit-IsSound self h.limit h.limit.amount (omega arith))

module _ (w : World) (storage : w.Storage) where
  simulate_reduce_limit-le :
      (c : Coin) (self : HotWallet) (h : IsSound self) {n : ℕ} {usdc : SourcedCoin}
      → simulate_reduce_limit w storage c false self ≡ ok (n, usdc)
      → n ≤ h.limit.limit_remaining
  unfolding simulate_reduce_limit
  simulate_reduce_limit-le c self h e = ground (arith, h.only_limit)

  pub reduce_limit-IsSound : (c : Coin) → Exec.Maintains IsSound (reduce_limit w storage c)
  unfolding reduce_limit set_remaining
  reduce_limit-IsSound c self h =
      elim (Result-cases (simulate_reduce_limit w storage c false self)) [
        | inl ((n, usdc), e) ↦
            let le = simulate_reduce_limit-le c self h e in
            let fits = h.fits in
            subst IsSound (ground (arith, h.only_limit))
              (with_limit-IsSound self h.limit n (omega arith))
        | inr failed ↦ subst IsSound (ground arith) h
      ]

  process_spend_from-IsSound :
      (coins : List Coin) (tally : ℕ) (sources : Sources)
      → Exec.Maintains IsSound (process_spend_from w storage coins tally sources)
  unfolding process_spend_from
  process_spend_from-IsSound [] tally sources self h = h
  process_spend_from-IsSound (c ∷ coins) tally sources self h =
      Exec.Maintains-bind IsSound (reduce_limit w storage c) _ (reduce_limit-IsSound c)
        (λ checked. process_spend_from-IsSound coins _ _) self h

  pub process_spend_vec-IsSound :
      (coins : List Coin) → Exec.Maintains IsSound (process_spend_vec w storage coins)
  unfolding process_spend_vec
  process_spend_vec-IsSound coins = process_spend_from-IsSound coins 0 _

IsSound-limits :
    {self self' : HotWallet} (h : IsSound self)
    → (self'.spend_limits ≡ self.spend_limits)
      ⊎ (self'.spend_limits ≡ record h.limit { limit_remaining = h.limit.amount } ∷ [])
    → IsSound self'
IsSound-limits h (inl same) = record {
  limit = h.limit;
  only_limit = same ∙ h.only_limit;
  fits = h.fits;
}
IsSound-limits h (inr full) = record {
  limit = record h.limit { limit_remaining = h.limit.amount };
  only_limit = full;
  fits = omega arith;
}

pub reset_period-IsSound :
    (w : World) (current_time : Timestamp) → Exec.Maintains IsSound (reset_period w current_time)
unfolding reset_period reset_limits set_remaining
reset_period-IsSound w current_time self h = IsSound-limits h (ground (arith, h.only_limit))
